-- ===== src/Retention/Counted.antt =====
-- What a loop of internal/gocli/dismissed_retention.go over a map counts.
use nana.Prelude.{
  ℕ, zero, suc, ◌+◌, ◌*◌, String, Bool, true, false, ◌&&◌, ◌||◌, Option, none, some, List, [], ◌∷◌,
  ◌==◌, leb, ltb, if◌then◌else◌, trim_space, ◌≡◌, refl, arith, inl, inr, eq_iff, Bool-cases,
}
use nana.Retention.Items.{
  Item, second, retention_window, timestamp_expired, is_due, Change, stays, marked, purged,
  change_of, Tally, applied, maintain_items,
}

-- The last change of an item, or its creation, is so many days ago or more; no days are never over.
abbrev is_overdue : ℕ → ℕ → Item → Bool
is_overdue zero now item = false
is_overdue (suc days) now item = elim item.updated_at [
  | some updated_at ↦ leb (updated_at + suc days * (86400 * second)) now
  | none ↦ elim item.created_at [
    | some created_at ↦ leb (created_at + suc days * (86400 * second)) now
    | none ↦ false
  ]
]

unfoldable pub expires : String → ℕ → ℕ → Item → Bool
expires status days now item = trim_space item.status == status && is_overdue days now item

abbrev pub count_items : (Item → Bool) → List (String × Item) → ℕ
count_items test [] = 0
count_items test ((key, item) ∷ items) =
    let rest = count_items test items in if test item then suc rest else rest

abbrev is_marked : Change → Bool
is_marked marked = true
is_marked _ = false

abbrev is_purged : Change → Bool
is_purged purged = true
is_purged _ = false

is_due-is_overdue :
    (days now : ℕ) (item : Item)
    → is_due now (retention_window days) item ≡ is_overdue days now item
unfolding is_due retention_window timestamp_expired
is_due-is_overdue zero now item = refl
is_due-is_overdue (suc days) now item = by_times item.updated_at item.created_at
  where
    by_times :
        (u c : Option ℕ)
        → timestamp_expired now (suc days * (86400 * second)) u c ≡ elim u as (λ x. Bool) [
          | some updated_at ↦ leb (updated_at + suc days * (86400 * second)) now
          | none ↦ elim c as (λ x. Bool) [
            | some created_at ↦ leb (created_at + suc days * (86400 * second)) now
            | none ↦ false
          ]
        ]
    by_times (some u) c = refl
    by_times none (some c) = refl
    by_times none none = refl

module _ (dismissed deleted now : ℕ) where
  abbrev change : Item → Change
  change item = change_of now (retention_window dismissed) (retention_window deleted) item

  change-expires :
      (item : Item)
      → (is_marked (change item) ≡ expires "dismissed" dismissed now item)
        × (is_purged (change item) ≡ expires "deleted" deleted now item)
  unfolding change_of expires
  change-expires item =
      rw (is_due-is_overdue dismissed now item, is_due-is_overdue deleted now item)
        (by_status (trim_space item.status) (is_overdue dismissed now item)
          (is_overdue deleted now item))
    where
      by_status :
          (s : String) (a b : Bool)
          → let c =
              if s == "dismissed"
              then (if a then marked else stays)
              else if s == "deleted"
              then (if b then purged else stays)
              else stays in
            (is_marked c ≡ (s == "dismissed" && a)) × (is_purged c ≡ (s == "deleted" && b))
      by_status s a b = elim (Bool-cases (s == "dismissed")) [
        | inl e ↦ rw ((eq_iff s "dismissed").0 e) (by_flag a)
        | inr e ↦ elim (Bool-cases (s == "deleted")) [
          | inl d ↦ rw ((eq_iff s "deleted").0 d) (by_other b)
          | inr d ↦ rw (e, d) (refl, refl)
        ]
      ]
        where
          by_flag :
              (a : Bool)
              → (is_marked (if a then marked else stays) ≡ a)
                × (is_purged (if a then marked else stays) ≡ false)
          by_flag true = (refl, refl)
          by_flag false = (refl, refl)

          by_other :
              (b : Bool)
              → (is_marked (if b then purged else stays) ≡ false)
                × (is_purged (if b then purged else stays) ≡ b)
          by_other true = (refl, refl)
          by_other false = (refl, refl)

  -- The counts are those of the items that expire, and the flag says whether one is counted.
  abbrev IsTallied : List (String × Item) → Tally → Type 0
  IsTallied items tally =
      (tally.marked_deleted ≡ count_items (expires "dismissed" dismissed now) items)
      × (tally.purged ≡ count_items (expires "deleted" deleted now) items)
      × (tally.updated ≡ (ltb 0 tally.marked_deleted || ltb 0 tally.purged))

  applied-IsTallied :
      (key : String) (item : Item) (c : Change) (items : List (String × Item))
      (rest : List (String × Item) × Tally)
      → is_marked c ≡ expires "dismissed" dismissed now item
      → is_purged c ≡ expires "deleted" deleted now item
      → IsTallied items rest.1
      → IsTallied ((key, item) ∷ items) (applied now key item c rest).1
  applied-IsTallied key item stays items rest m p t = rw (← m, ← p) t
  applied-IsTallied key item marked items rest m p (a, b, u) =
      rw (← m, ← p) (ground (arith, a), b, ground arith)
  applied-IsTallied key item purged items rest m p (a, b, u) =
      rw (← m, ← p) (a, ground (arith, b), ground arith)

  pub maintain_items-IsTallied :
      (items : List (String × Item))
      → IsTallied items
          (maintain_items now (retention_window dismissed) (retention_window deleted) items).1
  unfolding maintain_items
  maintain_items-IsTallied [] = (refl, refl, refl)
  maintain_items-IsTallied ((key, item) ∷ items) =
      let e = change-expires item in
      applied-IsTallied key item (change item) items
        (maintain_items now (retention_window dismissed) (retention_window deleted) items) e.0 e.1
        (maintain_items-IsTallied items)
