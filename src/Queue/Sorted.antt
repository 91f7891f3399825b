-- ===== src/Queue/Sorted.antt =====
-- The implementation queue of internal/gocli/start_work.go: its order, and the issues that it has.
use nana.Prelude.{
  ℕ, ◌+◌, Bool, true, false, ◌&&◌, List, [], ◌∷◌, if◌then◌else◌, ◌≡◌, inl, inr, refl, sym, ap, ◌∙◌,
  arith, Bool-cases,
}
use nana.Queue.Priority.{Issue}
use nana.Queue.Wanted.{is_wanted, precedes, is_runnable-is_wanted, at_most-precedes}
use nana.Queue.Order.{
  Options, is_runnable, runnable, at_most, insert, sort_issues, Queue, queued, as_queue,
  build_implementation_queue,
}

abbrev pub count_if : (Issue → Bool) → List Issue → ℕ
count_if test [] = 0
count_if test (i ∷ issues) = let rest = count_if test issues in if test i then rest + 1 else rest

-- An issue is in front of each of a list, or equal.
abbrev pub is_first : Issue → List Issue → Bool
is_first a [] = true
is_first a (b ∷ bs) = let rest = is_first a bs in precedes a b && rest

abbrev pub is_ordered : List Issue → Bool
is_ordered [] = true
is_ordered (a ∷ issues) = let rest = is_ordered issues in is_first a issues && rest

-- The same by the comparison of the sort.
abbrev is_below : Issue → List Issue → Bool
is_below a [] = true
is_below a (b ∷ bs) = let rest = is_below a bs in at_most a b && rest

abbrev is_sorted : List Issue → Bool
is_sorted [] = true
is_sorted (a ∷ issues) = let rest = is_sorted issues in is_below a issues && rest

at_most_trans : (a b c : Issue) → at_most a b ≡ true → at_most b c ≡ true → at_most a c ≡ true
unfolding at_most
at_most_trans a b c h k = ground (arith, h, k)

at_most_total : (a b : Issue) → at_most a b ≡ false → at_most b a ≡ true
unfolding at_most
at_most_total a b h = ground (arith, h)

is_below_trans :
    (a b : Issue) (issues : List Issue)
    → at_most a b ≡ true
    → is_below b issues ≡ true
    → is_below a issues ≡ true
is_below_trans a b [] h k = refl
is_below_trans a b (c ∷ issues) h k =
    let ih = is_below_trans a b issues h (ground (arith, k)) in
    let this = at_most_trans a b c h (ground (arith, k)) in ground (arith, ih, this)

is_below-insert :
    (a b : Issue) (issues : List Issue)
    → at_most b a ≡ true
    → is_below b issues ≡ true
    → is_below b (insert a issues) ≡ true
unfolding insert
is_below-insert a b [] h k = ground (arith, h)
is_below-insert a b (c ∷ issues) h k = elim (Bool-cases (at_most a c)) [
  | inl e ↦ rw e (ground (arith, h, k))
  | inr e ↦
      let ih = is_below-insert a b issues h (ground (arith, k)) in rw e (ground (arith, k, ih))
]

is_sorted-insert :
    (a : Issue) (issues : List Issue) → is_sorted issues ≡ true → is_sorted (insert a issues) ≡ true
unfolding insert
is_sorted-insert a [] h = refl
is_sorted-insert a (b ∷ issues) h = elim (Bool-cases (at_most a b)) [
  | inl e ↦
      let below = is_below_trans a b issues e (ground (arith, h)) in
      rw e (ground (arith, e, h, below))
  | inr e ↦
      let ih = is_sorted-insert a issues (ground (arith, h)) in
      let below = is_below-insert a b issues (at_most_total a b e) (ground (arith, h)) in
      rw e (ground (arith, ih, below))
]

is_sorted-sort_issues : (issues : List Issue) → is_sorted (sort_issues issues) ≡ true
unfolding sort_issues
is_sorted-sort_issues [] = refl
is_sorted-sort_issues (a ∷ issues) =
    is_sorted-insert a (sort_issues issues) (is_sorted-sort_issues issues)

module _ (test : Issue → Bool) where
  count_if-insert :
      (a : Issue) (issues : List Issue)
      → count_if test (insert a issues) ≡ count_if test (a ∷ issues)
  unfolding insert
  count_if-insert a [] = refl
  count_if-insert a (b ∷ issues) = elim (Bool-cases (at_most a b)) [
    | inl e ↦ rw e refl
    | inr e ↦ let ih = count_if-insert a issues in rw e (ground (arith, ih))
  ]

  count_if-sort_issues :
      (issues : List Issue) → count_if test (sort_issues issues) ≡ count_if test issues
  unfolding sort_issues
  count_if-sort_issues [] = refl
  count_if-sort_issues (a ∷ issues) =
      count_if-insert a (sort_issues issues)
      ∙ ap (λ n. if test a then n + 1 else n) (count_if-sort_issues issues)

  count_if-runnable :
      (options : Options) (now : ℕ) (issues : List Issue)
      → count_if test (runnable options now issues)
        ≡ count_if (λ i. test i && is_runnable options now i) issues
  unfolding runnable
  count_if-runnable options now [] = refl
  count_if-runnable options now (i ∷ issues) =
      let ih = count_if-runnable options now issues in
      elim (Bool-cases (is_runnable options now i)) [
        | inl e ↦ rw e (ground (arith, ih))
        | inr e ↦ rw e (ground (arith, ih))
      ]

is_below-is_first : (a : Issue) (issues : List Issue) → is_below a issues ≡ is_first a issues
is_below-is_first a [] = refl
is_below-is_first a (b ∷ issues) = rw (at_most-precedes a b, is_below-is_first a issues) refl

is_sorted-is_ordered : (issues : List Issue) → is_sorted issues ≡ is_ordered issues
is_sorted-is_ordered [] = refl
is_sorted-is_ordered (a ∷ issues) =
    rw (is_below-is_first a issues, is_sorted-is_ordered issues) refl

count_if-same :
    (f g : Issue → Bool) (issues : List Issue)
    → ((i : Issue) → f i ≡ g i)
    → count_if f issues ≡ count_if g issues
count_if-same f g [] h = refl
count_if-same f g (i ∷ issues) h = rw (h i, count_if-same f g issues h) refl

queued_injective : (xs ys : List Issue) → ◌≡◌ {A = Queue} (queued xs) (queued ys) → xs ≡ ys
queued_injective xs ys h = ap (issues_of xs) h
  where
    issues_of : List Issue → Queue → List Issue
    issues_of other (queued issues) = issues
    issues_of other _ = other

as_queue-sort_issues : (issues q : List Issue) → as_queue issues ≡ queued q → q ≡ sort_issues issues
as_queue-sort_issues [] q h = ground (arith, h)
as_queue-sort_issues (i ∷ issues) q h = sym (queued_injective (sort_issues (i ∷ issues)) q h)

build-as_queue :
    (options : Options) (open_fork_prs now : ℕ) (issues q : List Issue)
    → build_implementation_queue options open_fork_prs now issues ≡ queued q
    → as_queue (runnable options now issues) ≡ queued q
unfolding build_implementation_queue
build-as_queue options open_fork_prs now issues q h = ground (arith, h)

-- A queue that is built has its issues in the order of their effective priorities, then of their
-- complexities, then of their numbers, each in front of all behind it or equal; and it has the issues
-- of the state that are queued and open, with a fork issue, a type of work and a fresh priority,
-- allowed by the mode and not scheduled for later, each as often as there: any test counts as many in
-- it as among those.
pub build_implementation_queue-ordered :
    (options : Options) (open_fork_prs now : ℕ) (issues q : List Issue)
    → build_implementation_queue options open_fork_prs now issues ≡ queued q
    → (is_ordered q ≡ true)
      × ((test : Issue → Bool)
          → count_if test q ≡ count_if (λ i. test i && is_wanted options now i) issues)
build_implementation_queue-ordered options open_fork_prs now issues q h =
    let e =
      as_queue-sort_issues (runnable options now issues) q
        (build-as_queue options open_fork_prs now issues q h) in
    (
      ap is_ordered e
          ∙ sym (is_sorted-is_ordered (sort_issues (runnable options now issues)))
          ∙ is_sorted-sort_issues (runnable options now issues),
      λ test.
          ap (count_if test) e
          ∙ count_if-sort_issues test (runnable options now issues)
          ∙ count_if-runnable test options now issues
          ∙ count_if-same (λ i. test i && is_runnable options now i)
              (λ i. test i && is_wanted options now i) issues
              (λ i. ap (λ b. test i && b) (is_runnable-is_wanted options now i)),
    )
