-- ===== src/Metrics/Builder/Check.antt =====
-- What `check` of internal/metrics/prop_metrics.go reports about the labels, and what it misses.
use mikrotik_exporter.Prelude.{
  false, List, [], ◌∷◌, ◌++◌, append_assoc, append-nil, ap, sym, equal_iff, ◌≡◌, ◌≢◌, refl, ◌∙◌,
  ◌⊎◌, inl, inr, All, Bytes, equal, equal_refl, Bool-cases,
}
use mikrotik_exporter.Metrics.Builder.{
  BuilderError, duplicated_label, duplicates_of, check_duplicates, check_labels,
}

-- The label is none of the list.
abbrev pub Absent : Bytes → List Bytes → Type 0
Absent l xs = All (λ x. equal l x ≡ false) xs

-- The list without its last item, when `p` stands in front of it.
abbrev front : Bytes → List Bytes → List Bytes
front p [] = []
front p (x ∷ xs) = p ∷ front x xs

duplicates_of-Absent : (l : Bytes) (xs : List Bytes) → Absent l xs → duplicates_of l xs ≡ []
unfolding duplicates_of
duplicates_of-Absent l [] h = refl
duplicates_of-Absent l (x ∷ xs) h = rw (h.0, duplicates_of) (duplicates_of-Absent l xs h.1)

-- The last label is compared with all in front of it but the nearest.
check_duplicates-append :
    (earlier : List Bytes) (p : Bytes) (ls : List Bytes) (l : Bytes)
    → check_duplicates earlier p (ls ++ l ∷ [])
      ≡ check_duplicates earlier p ls ++ duplicates_of l (earlier ++ front p ls)
unfolding check_duplicates
check_duplicates-append earlier p [] l = rw (append-nil, append-nil)
check_duplicates-append earlier p (x ∷ ls) l =
    rw (check_duplicates-append (earlier ++ p ∷ []) x ls l)
      (rw (append_assoc earlier (p ∷ []) (front x ls)) (rw append_assoc))

front-append : (p : Bytes) (ls : List Bytes) (l : Bytes) → front p (ls ++ l ∷ []) ≡ p ∷ ls
front-append p [] l = refl
front-append p (x ∷ ls) l = rw (front-append x ls l)

-- A last label that repeats the one directly in front of it, and no other, is not reported: the
-- inner loop of `check` ends one label too early. With the second copy the report is that without it.
pub check_labels-misses_neighbour :
    (first : Bytes) (ls : List Bytes) (l : Bytes)
    → Absent l (first ∷ ls)
    → check_labels (first ∷ (ls ++ l ∷ l ∷ [])) ≡ check_labels (first ∷ (ls ++ l ∷ []))
unfolding check_labels
check_labels-misses_neighbour first ls l h = rw (← append_assoc ls (l ∷ []) (l ∷ [])) (
    check_duplicates-append [] first (ls ++ l ∷ []) l
    ∙ rw (front-append first ls l) (
        rw (duplicates_of-Absent l (first ∷ ls) h)
          (append-nil (check_duplicates [] first (ls ++ l ∷ [])))))

-- The problem is one of the report.
abbrev pub Reported : BuilderError → List BuilderError → Type 0
Reported e [] = ⊥
Reported e (x ∷ xs) = (x ≡ e) ⊎ Reported e xs

Reported-append_left :
    (e : BuilderError) (xs ys : List BuilderError) → Reported e xs → Reported e (xs ++ ys)
Reported-append_left e [] ys h = absurd h
Reported-append_left e (x ∷ xs) ys (inl h) = inl h
Reported-append_left e (x ∷ xs) ys (inr h) = inr (Reported-append_left e xs ys h)

Reported-append_right :
    (e : BuilderError) (xs ys : List BuilderError) → Reported e ys → Reported e (xs ++ ys)
Reported-append_right e [] ys h = h
Reported-append_right e (x ∷ xs) ys h = inr (Reported-append_right e xs ys h)

Reported-append :
    (e : BuilderError) (xs ys : List BuilderError)
    → Reported e (xs ++ ys)
    → Reported e xs ⊎ Reported e ys
Reported-append e [] ys h = inr h
Reported-append e (x ∷ xs) ys (inl h) = inl (inl h)
Reported-append e (x ∷ xs) ys (inr h) = elim (Reported-append e xs ys h) [
  | inl k ↦ inl (inr k)
  | inr k ↦ inr k
]

Reported-duplicates_of :
    (l : Bytes) (xs ys : List Bytes)
    → Reported (duplicated_label l) (duplicates_of l (xs ++ l ∷ ys))
unfolding duplicates_of
Reported-duplicates_of l [] ys = rw (equal_refl l, duplicates_of) (inl refl)
Reported-duplicates_of l (x ∷ xs) ys = elim (Bool-cases (equal l x)) [
  | inl e ↦ rw (e, duplicates_of) (inl refl)
  | inr e ↦ rw (e, duplicates_of) (Reported-duplicates_of l xs ys)
]

-- Behind a copy of `l` among the labels that the inner loop walks, another copy is reported.
check_duplicates-reports :
    (earlier : List Bytes) (p l : Bytes) (gap post : List Bytes)
    → ((ys : List Bytes) → Reported (duplicated_label l) (duplicates_of l (earlier ++ ys)))
    → Reported (duplicated_label l) (check_duplicates earlier p (gap ++ l ∷ post))
unfolding check_duplicates
check_duplicates-reports earlier p l [] post h =
    Reported-append_left _ _ _ (rw append-nil at (h []))
check_duplicates-reports earlier p l (g ∷ gap) post h = Reported-append_right _ _ _ (
    check_duplicates-reports (earlier ++ p ∷ []) g l gap post
      (λ ys. rw (append_assoc earlier (p ∷ []) ys) (h (p ∷ ys))))

check_duplicates-later :
    (error : BuilderError) (e : List Bytes) (p : Bytes) (pre : List Bytes) (l : Bytes)
    (rest : List Bytes)
    → ((e' : List Bytes) → Reported error (check_duplicates e' l rest))
    → Reported error (check_duplicates e p (pre ++ l ∷ rest))
unfolding check_duplicates
check_duplicates-later error e p [] l rest h = Reported-append_right _ _ _ (h (e ++ p ∷ []))
check_duplicates-later error e p (x ∷ pre) l rest h =
    Reported-append_right _ _ _ (check_duplicates-later error (e ++ p ∷ []) x pre l rest h)

-- A label that stands twice, with one label between at least, is reported under its name.
pub check_labels-reports :
    (pre : List Bytes) (l : Bytes) (gap post : List Bytes)
    → gap ≢ []
    → Reported (duplicated_label l) (check_labels (pre ++ l ∷ (gap ++ l ∷ post)))
unfolding check_labels check_duplicates
check_labels-reports pre l [] post apart = absurd (apart refl)
check_labels-reports pre l (g ∷ gap) post apart = go pre
  where
    twice :
        (e : List Bytes)
        → Reported (duplicated_label l) (check_duplicates e l (g ∷ gap ++ l ∷ post))
    twice e = Reported-append_right _ _ _ (
        check_duplicates-reports (e ++ l ∷ []) g l gap post
          (λ ys. rw (append_assoc e (l ∷ []) ys) (Reported-duplicates_of l e ys)))

    go :
        (pre : List Bytes)
        → Reported (duplicated_label l) (check_labels (pre ++ l ∷ (g ∷ gap ++ l ∷ post)))
    go [] = twice []
    go (x ∷ pre) =
        check_duplicates-later (duplicated_label l) [] x pre l (g ∷ gap ++ l ∷ post) twice

-- The label stands at two places of the list that are not next to one another.
abbrev pub StandsApart : Bytes → List Bytes → Type 0
StandsApart l labels =
    (pre : List Bytes) × (gap : List Bytes) × (post : List Bytes) × (gap ≢ [])
    × (labels ≡ pre ++ l ∷ (gap ++ l ∷ post))

duplicates_of-found :
    (l x : Bytes) (xs : List Bytes)
    → Reported (duplicated_label l) (duplicates_of x xs)
    → (x ≡ l) × (pre : List Bytes) × (mid : List Bytes) × (xs ≡ pre ++ l ∷ mid)
unfolding duplicates_of
duplicates_of-found l x [] h = absurd h
duplicates_of-found l x (y ∷ xs) h = elim (Bool-cases (equal x y)) [
  | inl e ↦
      let same_y : x ≡ y = (equal_iff x y).0 e in
      elim (rw e at h) [
        | inl q ↦ let same : x ≡ l = cc in (same, [], xs, ap (λ z. z ∷ xs) (sym same_y ∙ same))
        | inr q ↦
            let (same, pre, mid, there) = duplicates_of-found l x xs q in
            (same, y ∷ pre, mid, ap (λ zs. y ∷ zs) there)
      ]
  | inr e ↦
      let (same, pre, mid, there) = duplicates_of-found l x xs (rw e at h) in
      (same, y ∷ pre, mid, ap (λ zs. y ∷ zs) there)
]

append-not_nil : (xs : List Bytes) (x : Bytes) → xs ++ x ∷ [] ≢ []
append-not_nil [] x = cc
append-not_nil (y ∷ xs) x = cc

check_duplicates-StandsApart :
    (l : Bytes) (earlier : List Bytes) (p : Bytes) (ls : List Bytes)
    → Reported (duplicated_label l) (check_duplicates earlier p ls)
    → StandsApart l (earlier ++ p ∷ ls)
unfolding check_duplicates
check_duplicates-StandsApart l earlier p [] h = absurd h
check_duplicates-StandsApart l earlier p (x ∷ ls) h =
    elim (Reported-append _ (duplicates_of x earlier) _ h) [
      | inl k ↦
          let (same, pre, mid, there) = duplicates_of-found l x earlier k in
          (
            pre,
            mid ++ p ∷ [],
            ls,
            append-not_nil mid p,
            ap (λ e. e ++ p ∷ x ∷ ls) there
                ∙ ap (λ y. (pre ++ l ∷ mid) ++ p ∷ y ∷ ls) same
                ∙ append_assoc pre (l ∷ mid) (p ∷ l ∷ ls)
                ∙ ap (λ zs. pre ++ l ∷ zs) (sym (append_assoc mid (p ∷ []) (l ∷ ls))),
          )
      | inr k ↦
          rw (append_assoc earlier (p ∷ []) (x ∷ ls)) at
            (check_duplicates-StandsApart l (earlier ++ p ∷ []) x ls k)
    ]

-- A label that is reported as a duplicate stands at two places that are not next to one another.
pub check_labels-StandsApart :
    (l : Bytes) (labels : List Bytes)
    → Reported (duplicated_label l) (check_labels labels)
    → StandsApart l labels
unfolding check_labels
check_labels-StandsApart l [] h = absurd h
check_labels-StandsApart l (x ∷ labels) h = check_duplicates-StandsApart l [] x labels h
