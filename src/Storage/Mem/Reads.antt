-- ===== src/Storage/Mem/Reads.antt =====
-- How the merge of changes into stored entries reads, and that it stands in key order.
use retia.Prelude.{◌≡◌, refl, Option, none, some, [], ◌∷◌, arith, eq, inl, inr}
use retia.Prelude.Order.{Bytes, bytes_ord, ◌≺◌, Ordering-cases}
use retia.BTreeMap.{get, Above, IsSorted}
use retia.BTreeMap.Laws.{get-Above, Above-trans}
use retia.Storage.Mem.Scan.{Store, Delta}
use retia.Storage.Mem.Merge.{merge, apply_change}

-- The value under a key once the changes are applied.
abbrev pub overlay : Delta → Store → Bytes → Option Bytes
overlay c d k = elim (get k c) [ some change ↦ change | none ↦ get k d ]

get-apply_change :
    (p k : Bytes) (cv : Option Bytes) (rest : Store)
    → get k rest ≡ none
    → get p (apply_change k cv rest) ≡ (elim (bytes_ord.cmp p k) [ eq ↦ cv | _ ↦ get p rest ])
unfolding get
get-apply_change p k none rest h = ground (arith, bytes_ord.eq_of_cmp p k)
get-apply_change p k (some v) rest h = ground arith

get_beyond : (i j : Bytes) (v : Bytes) (d : Store) → i ≺ j → Above j d → get i ((j, v) ∷ d) ≡ none
get_beyond i j v d h a = get-Above i ((j, v) ∷ d) (h, Above-trans i j d h a)

get_beyond_change :
    (i j : Bytes) (cv : Option Bytes) (c : Delta) → i ≺ j → Above j c → get i ((j, cv) ∷ c) ≡ none
get_beyond_change i j cv c h a = get-Above i ((j, cv) ∷ c) (h, Above-trans i j c h a)

pub get-merge :
    (p : Bytes) (c : Delta) (d : Store)
    → IsSorted c
    → IsSorted d
    → get p (merge c d) ≡ overlay c d p
unfolding merge get
get-merge p [] [] s t = refl
get-merge p [] ((dk, v) ∷ d) s t = ground (arith, get-merge p [] d s t.1)
get-merge p ((ck, cv) ∷ c) [] s t = ground (
  arith,
  get-apply_change p ck cv (merge c []),
  get-merge p c [] s.1 t,
  get-merge ck c [] s.1 t,
  get-Above ck c s.0,
  bytes_ord.eq_of_cmp p ck,
)
get-merge p ((ck, cv) ∷ c) ((dk, v) ∷ d) s t = elim (Ordering-cases (bytes_ord.cmp ck dk)) [
  | inl less ↦
      let rest = merge c ((dk, v) ∷ d) in
      ground (
        arith,
        get-apply_change p ck cv rest,
        get-merge p c ((dk, v) ∷ d) s.1 t,
        get-merge ck c ((dk, v) ∷ d) s.1 t,
        get-Above ck c s.0,
        get_beyond ck dk v d less t.0,
        bytes_ord.eq_of_cmp p ck,
      )
  | inr (inl same) ↦ ground (
    arith,
    get-merge p ((ck, cv) ∷ c) d s t.1,
    bytes_ord.eq_of_cmp p dk,
    bytes_ord.eq_of_cmp ck dk,
    bytes_ord.cmp_self p,
  )
  | inr (inr more) ↦ ground (
    arith,
    get-merge p ((ck, cv) ∷ c) d s t.1,
    get_beyond_change dk ck cv c (bytes_ord.lt_of_gt ck dk more) s.0,
    bytes_ord.eq_of_cmp p dk,
  )
]

Above-apply_change :
    (i k : Bytes) (cv : Option Bytes) (rest : Store)
    → i ≺ k
    → Above i rest
    → Above i (apply_change k cv rest)
Above-apply_change i k none rest h a = a
Above-apply_change i k (some v) rest h a = (h, a)

apply_change-IsSorted :
    (k : Bytes) (cv : Option Bytes) (rest : Store)
    → Above k rest
    → IsSorted rest
    → IsSorted (apply_change k cv rest)
apply_change-IsSorted k none rest a s = s
apply_change-IsSorted k (some v) rest a s = (a, s)

Above-merge : (i : Bytes) (c : Delta) (d : Store) → Above i c → Above i d → Above i (merge c d)
unfolding merge
Above-merge i [] [] a b = tt
Above-merge i [] ((dk, v) ∷ d) a b = (b.0, Above-merge i [] d a b.1)
Above-merge i ((ck, cv) ∷ c) [] a b =
    Above-apply_change i ck cv (merge c []) a.0 (Above-merge i c [] a.1 b)
Above-merge i ((ck, cv) ∷ c) ((dk, v) ∷ d) a b = ground (
  arith,
  Above-apply_change i ck cv (merge c ((dk, v) ∷ d)),
  Above-merge i c ((dk, v) ∷ d),
  Above-merge i ((ck, cv) ∷ c) d,
)

pub merge-IsSorted : (c : Delta) (d : Store) → IsSorted c → IsSorted d → IsSorted (merge c d)
unfolding merge
merge-IsSorted [] [] s t = tt
merge-IsSorted [] ((dk, v) ∷ d) s t = (Above-merge dk [] d tt t.0, merge-IsSorted [] d s t.1)
merge-IsSorted ((ck, cv) ∷ c) [] s t =
    apply_change-IsSorted ck cv (merge c []) (Above-merge ck c [] s.0 t) (merge-IsSorted c [] s.1 t)
merge-IsSorted ((ck, cv) ∷ c) ((dk, v) ∷ d) s t = ground (
  arith,
  apply_change-IsSorted ck cv (merge c ((dk, v) ∷ d)),
  Above-merge ck c ((dk, v) ∷ d),
  Above-merge dk ((ck, cv) ∷ c) d,
  Above-trans ck dk d,
  Above-trans dk ck c,
  bytes_ord.lt_of_gt ck dk,
  merge-IsSorted c ((dk, v) ∷ d),
  merge-IsSorted ((ck, cv) ∷ c) d,
)
