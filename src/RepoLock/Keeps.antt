-- ===== src/RepoLock/Keeps.antt =====
-- Every move keeps what holds of the lock files and the processes.
use nana.Prelude.{
  String, true, false, ◌==◌, trim_space, lookup, is_some, ◌≡◌, ◌≢◌, inl, inr, arith, eq_iff,
  Bool-cases,
}
use nana.RepoLock.World.{Phase, World, phase_of}
use nana.RepoLock.Sound.{
  owns_writer, owns_reader, holds_write, holds_read, names, is_idle, IsSound, IsMove, holds-owns,
  holds_not_read,
}

module _ {p : String} {ph : Phase} {w v : World} (m : IsMove p ph w v) (s : IsSound w) where
  at_own : phase_of p v ≡ ph
  at_own = ground (arith, m.entered p, eq_iff p p)

  at_other : (q : String) → (p == q) ≡ false → phase_of q v ≡ phase_of q w
  at_other q h = ground (arith, m.entered q, h)

  differs : (q : String) → (p == q) ≡ false → q ≢ p
  differs q h = λ e. ground (arith, eq_iff p q, h, e)

  -- A new owner of writer.json against an old one.
  new_owner :
      (q : String)
      → (p == q) ≡ false
      → owns_writer ph ≡ true
      → owns_writer (phase_of q w) ≡ true
      → p ≡ q
  new_owner q h a b = elim (m.claims a) [
    | inl k ↦ s.one_writer p q k b
    | inr k ↦ ground (arith, k q, b)
  ]

  keeps_one_writer :
      (a b : String) → owns_writer (phase_of a v) ≡ true → owns_writer (phase_of b v) ≡ true → a ≡ b
  keeps_one_writer a b x y = ground (
    arith,
    eq_iff p a,
    eq_iff p b,
    m.entered a,
    m.entered b,
    new_owner a,
    new_owner b,
    s.one_writer a b,
  )

  keeps_has_writer : (q : String) → owns_writer (phase_of q v) ≡ true → is_some v.writer ≡ true
  keeps_has_writer q x = elim (Bool-cases (p == q)) [
    | inl h ↦ m.writer_there (ground (arith, m.entered q, h, x))
    | inr h ↦ m.writer_kept q (differs q h) (ground (arith, at_other q h, x))
  ]

  keeps_has_reader :
      (q : String) → owns_reader (phase_of q v) ≡ true → names q (lookup q v.readers) ≡ true
  keeps_has_reader q x = elim (Bool-cases (p == q)) [
    | inl h ↦
        let e : p ≡ q = (eq_iff p q).0 h in
        rw (← e) (m.reader_there (ground (arith, m.entered q, h, x)))
    | inr h ↦ m.readers_kept q (differs q h) (ground (arith, at_other q h, x))
  ]

  new_reader :
      (a : String) → (p == a) ≡ false → holds_write (phase_of a w) ≡ true → holds_read ph ≡ true → ⊥
  new_reader a h x y = elim (m.reads_alone y) [
    | inl k ↦ ground (arith, s.exclusive a p x, k)
    | inr (inl k) ↦ ground (arith, s.one_writer p a k (holds-owns (phase_of a w) x), eq_iff p a, h)
    | inr (inr k) ↦ ground (arith, k a, holds-owns (phase_of a w) x)
  ]

  keeps_exclusive :
      (a b : String) → holds_write (phase_of a v) ≡ true → holds_read (phase_of b v) ≡ false
  keeps_exclusive a b x = elim (Bool-cases (p == a)) [
    | inl h ↦ elim (Bool-cases (p == b)) [
      | inl g ↦ rw (m.entered b, g) (holds_not_read ph (ground (arith, m.entered a, h, x)))
      | inr g ↦ rw (at_other b g) (elim (m.writes_alone (ground (arith, m.entered a, h, x))) [
        | inl k ↦ s.exclusive p b k
        | inr k ↦ k b (differs b g)
      ])
    ]
    | inr h ↦ elim (Bool-cases (p == b)) [
      | inl g ↦
          rw (m.entered b, g)
            (elim (Bool-cases (holds_read ph)) [
              | inl k ↦ absurd (new_reader a h (ground (arith, at_other a h, x)) k)
              | inr k ↦ k
            ])
      | inr g ↦ rw (at_other b g) (s.exclusive a b (ground (arith, at_other a h, x)))
    ]
  ]

  keeps_trimmed : (q : String) → is_idle (phase_of q v) ≡ false → trim_space q ≡ q
  keeps_trimmed q x = elim (Bool-cases (p == q)) [
    | inl h ↦
        let e : p ≡ q = (eq_iff p q).0 h in
        rw (← e) (m.same_token (ground (arith, m.entered q, h, x)))
    | inr h ↦ s.trimmed q (ground (arith, at_other q h, x))
  ]

  pub IsMove-IsSound : IsSound v
  IsMove-IsSound = record {
    one_writer = keeps_one_writer;
    has_writer = keeps_has_writer;
    has_reader = keeps_has_reader;
    exclusive = keeps_exclusive;
    trimmed = keeps_trimmed;
  }
