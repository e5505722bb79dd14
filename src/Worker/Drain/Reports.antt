-- ===== src/Worker/Drain/Reports.antt =====
-- `report_dead_letters` of crates/app/src/worker.rs: a row is announced once for as long as it is parked.
use alertthread.Base.{
  ◌≡◌, refl, subst, inl, inr, true, List, [], ◌∷◌, arith, ◌==◌, Bool-cases, any, All, All-imp,
}
use alertthread.Store.Model.{OpId, DeadLetter}
use alertthread.Worker.Drain.{is_row, is_reported, retained, announce, report_dead_letters}

retained-keeps :
    (parked : List DeadLetter) (reported : List OpId) (id : OpId)
    → any (is_row id) parked ≡ true
    → is_reported id reported ≡ true
    → is_reported id (retained parked reported) ≡ true
unfolding retained
retained-keeps parked [] id p r = cc
retained-keeps parked (i ∷ rest) id p r = elim (Bool-cases (i == id)) [
  | inl e ↦
      subst (λ j. is_reported id (retained parked (j ∷ rest)) ≡ true) {x = id} {y = i}
        (ground arith) (rw p (ground arith))
  | inr e ↦ elim (Bool-cases (any (is_row i) parked)) [
    | inl kept ↦ rw kept (ground (arith, retained-keeps parked rest id p))
    | inr gone ↦ rw gone (ground (arith, retained-keeps parked rest id p))
  ]
]

announce-keeps :
    (parked : List DeadLetter) (reported : List OpId) (id : OpId)
    → is_reported id reported ≡ true
    → is_reported id (announce parked reported).1 ≡ true
unfolding announce
announce-keeps [] reported id h = h
announce-keeps (row ∷ rest) reported id h = elim (Bool-cases (is_reported row.id reported)) [
  | inl e ↦ rw e (announce-keeps rest reported id h)
  | inr e ↦ rw e (announce-keeps rest (row.id ∷ reported) id (ground arith))
]

announce-reports :
    (parked : List DeadLetter) (reported : List OpId) (id : OpId)
    → any (is_row id) parked ≡ true
    → is_reported id (announce parked reported).1 ≡ true
unfolding announce
announce-reports [] reported id h = cc
announce-reports (row ∷ rest) reported id h = elim (Bool-cases (is_reported row.id reported)) [
  | inl e ↦ elim (Bool-cases (row.id == id)) [
    | inl same ↦ rw e (
        announce-keeps rest reported id
          (subst (λ i. is_reported i reported ≡ true) {x = row.id} {y = id} (ground arith) e))
    | inr other ↦ rw e (announce-reports rest reported id (ground arith))
  ]
  | inr e ↦ elim (Bool-cases (row.id == id)) [
    | inl same ↦ rw e (announce-keeps rest (row.id ∷ reported) id (ground arith))
    | inr other ↦ rw e (announce-reports rest (row.id ∷ reported) id (ground arith))
  ]
]

announce-silent :
    (parked : List DeadLetter) (reported : List OpId)
    → All (λ row. is_reported row.id reported ≡ true) parked
    → (announce parked reported).0 ≡ []
unfolding announce
announce-silent [] reported h = refl
announce-silent (row ∷ rest) reported h = rw h.0 (announce-silent rest reported h.1)

All-self : (rows : List DeadLetter) → All (λ row. any (is_row row.id) rows ≡ true) rows
All-self [] = tt
All-self (row ∷ rest) = (
  ground arith,
  All-imp (λ r. any (is_row r.id) rest ≡ true) (λ r. any (is_row r.id) (row ∷ rest) ≡ true) rest
      (λ r h. ground arith) (All-self rest),
)

still_reported :
    (parked later : List DeadLetter) (reported : List OpId) (rows : List DeadLetter)
    → All (λ row. any (is_row row.id) parked ≡ true) rows
    → All (λ row. any (is_row row.id) later ≡ true) rows
    → All (λ row. is_reported row.id (retained later (announce parked reported).1) ≡ true) rows
still_reported parked later reported [] h k = tt
still_reported parked later reported (row ∷ rest) h k = (
  retained-keeps later (announce parked reported).1 row.id k.0
      (announce-reports parked reported row.id h.0),
  still_reported parked later reported rest h.1 k.1,
)

-- A report announces no row that the last report has announced or skipped, for as long as it stays
-- parked.
pub report_dead_letters_once :
    (parked later : List DeadLetter) (reported : List OpId)
    → All (λ row. any (is_row row.id) parked ≡ true) later
    → (report_dead_letters later (report_dead_letters parked reported).1).0 ≡ []
unfolding report_dead_letters
report_dead_letters_once parked later reported h =
    announce-silent later (retained later (announce parked (retained parked reported)).1)
      (still_reported parked later (retained parked reported) later h (All-self later))
