-- ===== src/Retention/Passes.antt =====
-- What one pass, and several, do to an item of internal/gocli/dismissed_retention.go.
use nana.Prelude.{
  ℕ, ◌+◌, ◌-◌, ◌%◌, ◌≤◌, String, Bool, true, false, not, ◌&&◌, Option, none, some, List, [], ◌∷◌,
  ◌==◌, leb, is_some, if◌then◌else◌, trim_space, trim_left, trim_right, is_space, lookup, ◌≡◌, ◌⊎◌,
  refl, ap, ◌∙◌, arith, inl, inr, Bool-cases, Option-cases, eq_iff,
}
use nana.Retention.Items.{
  Item, second, timestamp_expired, is_due, mark_deleted, Change, stays, marked, purged, change_of,
  applied, maintain_items,
}

pub Change-cases : (c : Change) → (c ≡ stays) ⊎ (c ≡ marked) ⊎ (c ≡ purged)
Change-cases stays = inl refl
Change-cases marked = inr (inl refl)
Change-cases purged = inr (inr refl)

-- No key has two entries, as in a Go map.
abbrev pub is_map : List (String × Item) → Bool
is_map [] = true
is_map ((key, item) ∷ items) = let rest = is_map items in not (is_some (lookup key items)) && rest

abbrev pub changed : ℕ → Item → Change → Option Item
changed now item stays = some item
changed now item marked = some (mark_deleted now item)
changed now item purged = none

abbrev pub maintained : ℕ → Option ℕ → Option ℕ → Option Item → Option Item
maintained now dismissed deleted none = none
maintained now dismissed deleted (some item) =
    changed now item (change_of now dismissed deleted item)

module _ (now : ℕ) (dismissed deleted : Option ℕ) where
  unfoldable pub pass : List (String × Item) → List (String × Item)
  pass items = (maintain_items now dismissed deleted items).0

  kept_as : String → Option Item → List (String × Item) → List (String × Item)
  kept_as key none items = items
  kept_as key (some item) items = (key, item) ∷ items

  -- A pass over an entry and the rest.
  pass-∷ :
      (key : String) (item : Item) (items : List (String × Item))
      → pass ((key, item) ∷ items)
        ≡ kept_as key (maintained now dismissed deleted (some item)) (pass items)
  unfolding pass maintain_items kept_as
  pass-∷ key item items = applied_as (change_of now dismissed deleted item)
    where
      applied_as :
          (c : Change)
          → (applied now key item c (maintain_items now dismissed deleted items)).0
            ≡ kept_as key (changed now item c) (maintain_items now dismissed deleted items).0
      applied_as stays = refl
      applied_as marked = refl
      applied_as purged = refl

  lookup-kept_as :
      (k key : String) (o : Option Item) (items : List (String × Item))
      → (key == k ≡ false)
      → lookup k (kept_as key o items) ≡ lookup k items
  unfolding lookup kept_as
  lookup-kept_as k key none items h = refl
  lookup-kept_as k key (some item) items h = rw h refl

  lookup-pass_absent :
      (k : String) (items : List (String × Item))
      → lookup k items ≡ none
      → lookup k (pass items) ≡ none
  unfolding lookup pass maintain_items
  lookup-pass_absent k [] h = refl
  lookup-pass_absent k ((key, item) ∷ items) h = elim (Bool-cases (key == k)) [
    | inl e ↦ absurd (ground (arith, h, e))
    | inr e ↦
        ap (lookup k) (pass-∷ key item items)
        ∙ lookup-kept_as k key (maintained now dismissed deleted (some item)) (pass items) e
        ∙ lookup-pass_absent k items (ground (arith, h, e))
  ]

  absent_key :
      (j : String) (rest : List (String × Item))
      → is_some (lookup j rest) ≡ false
      → lookup j rest ≡ none
  absent_key j rest n = elim (Option-cases (lookup j rest)) [
    | inl e ↦ e
    | inr (i, e) ↦ absurd (ground (arith, n, e))
  ]

  lookup-kept_as_same :
      (k key : String) (o : Option Item) (items : List (String × Item))
      → (key == k ≡ true)
      → lookup k items ≡ none
      → lookup k (kept_as key o items) ≡ o
  unfolding lookup kept_as
  lookup-kept_as_same k key none items h n = n
  lookup-kept_as_same k key (some item) items h n = rw h refl

  -- The pass changes each entry of a map by itself.
  pub lookup-pass :
      (k : String) (items : List (String × Item))
      → is_map items ≡ true
      → lookup k (pass items) ≡ maintained now dismissed deleted (lookup k items)
  unfolding lookup pass maintain_items
  lookup-pass k [] h = refl
  lookup-pass k ((key, item) ∷ items) h = elim (Bool-cases (key == k)) [
    | inl e ↦
        let same = (eq_iff key k).0 e in
        let free = absent_key key items (ground (arith, h)) in
        rw (pass-∷ key item items, e)
          (lookup-kept_as_same k key (maintained now dismissed deleted (some item)) (pass items) e
            (lookup-pass_absent k items (rw (rw same at free))))
    | inr e ↦
        rw (pass-∷ key item items, e)
          (lookup-kept_as k key (maintained now dismissed deleted (some item)) (pass items) e
            ∙ lookup-pass k items (ground (arith, h)))
  ]

  is_map-kept_as :
      (key : String) (o : Option Item) (items : List (String × Item))
      → is_map items ≡ true
      → lookup key items ≡ none
      → is_map (kept_as key o items) ≡ true
  unfolding kept_as
  is_map-kept_as key none items h n = h
  is_map-kept_as key (some item) items h n = ground (arith, h, n)

  empty-is_map : is_map (pass []) ≡ true
  unfolding pass maintain_items
  empty-is_map = refl

  pub pass-is_map :
      (items : List (String × Item)) → is_map items ≡ true → is_map (pass items) ≡ true
  pass-is_map [] h = empty-is_map
  pass-is_map ((key, item) ∷ items) h = rw (pass-∷ key item items) (
      is_map-kept_as key (maintained now dismissed deleted (some item)) (pass items)
        (pass-is_map items (ground (arith, h)))
        (lookup-pass_absent key items (absent_key key items (ground (arith, h)))))

-- A dismissed item is due from its window on, and the mark that it gets then is due from the next.
change_of-dismissed :
    (now dismissed u : ℕ) (deleted : Option ℕ) (item : Item)
    → trim_space item.status ≡ "dismissed"
    → item.updated_at ≡ some u
    → change_of now (some dismissed) deleted item
      ≡ (if leb (u + dismissed) now then marked else stays)
unfolding change_of is_due timestamp_expired
change_of-dismissed now dismissed u deleted item s h = rw (s, h) refl

pub change_of-deleted :
    (now deleted at : ℕ) (dismissed : Option ℕ) (item : Item)
    → change_of now dismissed (some deleted) (mark_deleted at item)
      ≡ (if leb ((at - at % second) + deleted) now then purged else stays)
unfolding change_of is_due timestamp_expired mark_deleted trim_space trim_left trim_right is_space
change_of-deleted now deleted at dismissed item = refl

-- In a map, an item that is dismissed at a time stays as it is in every pass before its window has
-- gone by; the first pass from then on marks it deleted; marked, it stays in every pass before the
-- window of deleted items has gone by since the time of that pass in whole seconds, rounded down, so
-- up to a second earlier than since the pass; and any pass from then on removes it.
pub dismissed-gone :
    (items : List (String × Item)) (k : String) (item : Item) (u dismissed deleted at now : ℕ)
    → is_map items ≡ true
    → lookup k items ≡ some item
    → trim_space item.status ≡ "dismissed"
    → item.updated_at ≡ some u
    → u + dismissed ≤ at
    → lookup k (pass now (some dismissed) (some deleted) items)
        ≡ (if leb (u + dismissed) now then some (mark_deleted now item) else some item)
      × (lookup k (
            pass now
              (some dismissed)
              (some deleted)
              (pass at (some dismissed) (some deleted) items))
          ≡ (if leb ((at - at % second) + deleted) now then none else some (mark_deleted at item)))
dismissed-gone items k item u dismissed deleted at now m l s h due = (
  lookup-pass now (some dismissed) (some deleted) k items m
      ∙ ap (maintained now (some dismissed) (some deleted)) l
      ∙ ap (changed now item) (change_of-dismissed now dismissed u (some deleted) item s h)
      ∙ changed_if now item (leb (u + dismissed) now) marked,
  lookup-pass now (some dismissed) (some deleted) k (pass at (some dismissed) (some deleted) items)
        (pass-is_map at (some dismissed) (some deleted) items m)
      ∙ ap (maintained now (some dismissed) (some deleted)) marked_then
      ∙ ap (changed now (mark_deleted at item))
          (change_of-deleted now deleted at (some dismissed) item)
      ∙ changed_if now (mark_deleted at item) (leb ((at - at % second) + deleted) now) purged,
)
  where
    changed_if :
        (t : ℕ) (i : Item) (b : Bool) (c : Change)
        → changed t i (if b then c else stays) ≡ (if b then changed t i c else some i)
    changed_if t i true c = refl
    changed_if t i false c = refl

    if_due : (b : Bool) → b ≡ true → (if b then marked else stays) ≡ marked
    if_due b e = rw e refl

    marked_then :
        lookup k (pass at (some dismissed) (some deleted) items) ≡ some (mark_deleted at item)
    marked_then =
        lookup-pass at (some dismissed) (some deleted) k items m
        ∙ ap (maintained at (some dismissed) (some deleted)) l
        ∙ ap (changed at item) (change_of-dismissed at dismissed u (some deleted) item s h)
        ∙ ap (changed at item) (if_due (leb (u + dismissed) at) (ground (arith, due)))
