-- ===== src/Memory/Store/Rows.antt =====
-- Tables in which no two rows share an id or a rowid.
use onesilo_node.Base.{
  ◌≤◌, ◌≡◌, refl, ◌∙◌, Bool, false, ◌||◌, List, [], ◌∷◌, ◌++◌, arith, Text, text_eq, text_eq_comm,
  All, ◌==◌, Bool-cases, inl, inr,
}
use onesilo_node.Memory.Store.{Row, keep, next_rowid, has_id}

-- No two rows share an id or a rowid.
abbrev pub Distinct : List Row → Type 0
Distinct [] = Unit
Distinct (r ∷ rs) =
    (has_id r.id rs ≡ false) × (All (λ q. (q.rowid == r.rowid) ≡ false) rs × Distinct rs)

pub has_id-append :
    (id : Text) (rs : List Row) (r : Row)
    → has_id id (rs ++ r ∷ []) ≡ (has_id id rs || text_eq r.id id)
unfolding has_id
has_id-append id [] r = ground arith
has_id-append id (q ∷ rs) r = ground (arith, has_id-append id rs r)

pub has_id-keep :
    (test : Row → Bool) (id : Text) (rs : List Row)
    → has_id id rs ≡ false
    → has_id id (keep test rs) ≡ false
unfolding has_id keep
has_id-keep test id [] h = refl
has_id-keep test id (q ∷ rs) h = ground (arith, has_id-keep test id rs)

pub All-keep :
    (P : Row → Type 0) (test : Row → Bool) (rs : List Row) → All P rs → All P (keep test rs)
unfolding keep
All-keep P test [] h = tt
All-keep P test (r ∷ rs) h = elim (Bool-cases (test r)) [
  | inl e ↦ rw e (h.0, All-keep P test rs h.1)
  | inr e ↦ rw e (All-keep P test rs h.1)
]

pub Distinct-keep : (test : Row → Bool) (rs : List Row) → Distinct rs → Distinct (keep test rs)
unfolding keep
Distinct-keep test [] d = tt
Distinct-keep test (r ∷ rs) d = elim (Bool-cases (test r)) [
  | inl e ↦ rw e (
    has_id-keep test r.id rs d.0,
    (All-keep (λ q. (q.rowid == r.rowid) ≡ false) test rs d.1.0, Distinct-keep test rs d.1.1),
  )
  | inr e ↦ rw e (Distinct-keep test rs d.1.1)
]

pub All-append :
    (P : Row → Type 0) (rs : List Row) (r : Row) → All P rs → P r → All P (rs ++ r ∷ [])
All-append P [] r h p = (p, tt)
All-append P (q ∷ rs) r h p = (h.0, All-append P rs r h.1 p)

pub Distinct-append :
    (rs : List Row) (r : Row)
    → Distinct rs
    → has_id r.id rs ≡ false
    → next_rowid rs ≤ r.rowid
    → Distinct (rs ++ r ∷ [])
unfolding has_id next_rowid
Distinct-append [] r d h n = (refl, (tt, tt))
Distinct-append (q ∷ rs) r d h n =
    let far : (r.rowid == q.rowid) ≡ false = ground arith in
    let other : text_eq r.id q.id ≡ false = text_eq_comm r.id q.id ∙ ground arith in
    (
      rw (has_id-append q.id rs r) (ground arith),
      (
        All-append (λ p. (p.rowid == q.rowid) ≡ false) rs r d.1.0 far,
        Distinct-append rs r d.1.1 (ground arith) (ground arith),
      ),
    )
