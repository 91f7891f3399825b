-- ===== src/Runtime/Position.antt =====
-- The place that findJSONArrayAppendPosition of cmd/nana-runtime/main.go finds.
use nana.Prelude.{
  ℕ, zero, suc, ◌+◌, ◌-◌, ◌≤◌, ◌≡◌, Bool, true, false, Option, none, some, List, [], ◌∷◌, ◌++◌, eqb,
  ltb, if◌then◌else◌, length, length-append, refl, sym, ap, ◌∙◌, arith, Bool-cases, inl, inr,
}
use mathlib.Core.List.{append-nil, append_assoc}
use nana.Runtime.Append.{
  runtime_json_whitespace, chunk_size, take, drop, read_at, backwards, is_full, scan_chunk,
  scan_back, appended_at, find_json_array_append_position,
}

-- Whether the last byte that is no white space opens an array.
unfoldable pub opens : List ℕ → Bool
opens [] = false
opens (b ∷ bs) = let rest = opens bs in if runtime_json_whitespace b then rest else eqb b 91

-- On the bytes from the last to the first: the last byte that is no white space is a `]`, and that
-- is the place; with it, whether the byte before it is a `[`, white space aside.
unfoldable pub last_bracket : List ℕ → Option (ℕ × Bool)
unfolding opens
last_bracket [] = none
last_bracket (b ∷ bs) =
    let rest = last_bracket bs in
    if runtime_json_whitespace b
    then rest
    else if eqb b 93
    then some (length bs, opens bs)
    else none

scan_chunk_full :
    (start : ℕ) (bs : List ℕ) (found : List (ℕ × ℕ))
    → is_full found ≡ true
    → scan_chunk start bs found ≡ found
unfolding scan_chunk
scan_chunk_full start [] found h = refl
scan_chunk_full start (b ∷ bs) found h = rw h

scan_chunk-append :
    (xs ys : List ℕ) (found : List (ℕ × ℕ))
    → scan_chunk 0 (xs ++ ys) found ≡ scan_chunk 0 ys (scan_chunk (length ys) xs found)
unfolding scan_chunk
scan_chunk-append [] ys found = refl
scan_chunk-append (x ∷ xs) ys found = ground (
  arith,
  scan_chunk_full 0 ys found,
  scan_chunk-append xs ys found,
  scan_chunk-append xs ys (found ++ (x, length ys + length xs) ∷ []),
  length-append xs ys,
)

take-nil : (n : ℕ) → take n [] ≡ []
take-nil zero = refl
take-nil (suc n) = refl

take-split : (s d : ℕ) (bs : List ℕ) → take (s + d) bs ≡ take s bs ++ take d (drop s bs)
take-split zero d bs = ap (λ n. take n bs) (omega arith)
take-split (suc s) d [] = take-nil (suc s + d) ∙ sym (take-nil d)
take-split (suc s) d (b ∷ bs) =
    let e : suc s + d ≡ suc (s + d) = omega arith in
    ap (λ n. take n (b ∷ bs)) e ∙ ap (λ cs. b ∷ cs) (take-split s d bs)

length-take : (n : ℕ) (bs : List ℕ) → n ≤ length bs → length (take n bs) ≡ n
length-take zero bs h = refl
length-take (suc n) [] h = omega (arith, h)
length-take (suc n) (b ∷ bs) h = omega (arith, length-take n bs (omega (arith, h)))

take_all : (bs : List ℕ) → take (length bs) bs ≡ bs
take_all [] = refl
take_all (b ∷ bs) = ap (λ cs. b ∷ cs) (take_all bs)

backwards-append : (xs ys : List ℕ) → backwards (xs ++ ys) ≡ backwards ys ++ backwards xs
backwards-append [] ys = sym (append-nil (backwards ys))
backwards-append (x ∷ xs) ys =
    ap (λ zs. zs ++ x ∷ []) (backwards-append xs ys)
    ∙ append_assoc (backwards ys) (backwards xs) (x ∷ [])

length-backwards : (xs : List ℕ) → length (backwards xs) ≡ length xs
length-backwards [] = refl
length-backwards (x ∷ xs) =
    omega (arith, length-append (backwards xs) (x ∷ []), length-backwards xs)

chunk_step :
    (s offset : ℕ) (file : List ℕ) (found : List (ℕ × ℕ))
    → s ≤ offset
    → s ≤ length file
    → scan_chunk 0 (backwards (take offset file)) found
      ≡ scan_chunk 0
          (backwards (take s file))
          (scan_chunk s (backwards (read_at file s offset)) found)
unfolding read_at
chunk_step s offset file found h g =
    let rest = take (offset - s) (drop s file) in
    let e : offset ≡ s + (offset - s) = omega (arith, h) in
    let l : length (backwards (take s file)) ≡ s =
      length-backwards (take s file) ∙ length-take s file g in
    ap (λ n. scan_chunk 0 (backwards (take n file)) found) e
    ∙ ap (λ bs. scan_chunk 0 (backwards bs) found) (take-split s (offset - s) file)
    ∙ ap (λ bs. scan_chunk 0 bs found) (backwards-append (take s file) rest)
    ∙ scan_chunk-append (backwards rest) (backwards (take s file)) found
    ∙ ap (λ n. scan_chunk 0 (backwards (take s file)) (scan_chunk n (backwards rest) found)) l

scan_nil : (found : List (ℕ × ℕ)) → scan_chunk 0 [] found ≡ found
unfolding scan_chunk
scan_nil found = refl

above_zero : (n : ℕ) → ltb 0 (suc n) ≡ true
above_zero n = ground arith

scan_back-scan_chunk :
    (fuel : ℕ) (file : List ℕ) (offset : ℕ) (found : List (ℕ × ℕ))
    → offset ≤ fuel
    → offset ≤ length file
    → scan_back fuel file offset found ≡ scan_chunk 0 (backwards (take offset file)) found
unfolding scan_back
scan_back-scan_chunk zero file zero found h g = sym (scan_nil found)
scan_back-scan_chunk zero file (suc o) found h g = ground (arith, h)
scan_back-scan_chunk (suc fuel) file zero found h g = sym (scan_nil found)
scan_back-scan_chunk (suc fuel) file (suc o) found h g = elim (Bool-cases (is_full found)) [
  | inl e ↦ rw (above_zero o, e) (sym (scan_chunk_full 0 (backwards (take (suc o) file)) found e))
  | inr e ↦
      let start = suc o - chunk_size in
      rw (above_zero o, e)
        (scan_back-scan_chunk fuel file start _ (omega (arith, h)) (omega (arith, g))
          ∙ sym (chunk_step start (suc o) file found (omega arith) (omega (arith, g))))
]

-- With one byte found, the next byte that is no white space is the second.
scan_chunk-opens :
    (start b p : ℕ) (bs : List ℕ)
    → eqb b 93 ≡ true
    → appended_at (scan_chunk start bs ((b, p) ∷ [])) ≡ some (p, opens bs)
unfolding scan_chunk opens
scan_chunk-opens start b p [] h = ground (arith, h)
scan_chunk-opens start b p (c ∷ bs) h = elim (Bool-cases (runtime_json_whitespace c)) [
  | inl e ↦ rw e (scan_chunk-opens start b p bs h)
  | inr e ↦ rw (e, scan_chunk_full start bs ((b, p) ∷ (c, start + length bs) ∷ []) refl, h)
]

not_bracket :
    (start b p : ℕ) (bs : List ℕ)
    → eqb b 93 ≡ false
    → appended_at (scan_chunk start bs ((b, p) ∷ [])) ≡ none
unfolding scan_chunk
not_bracket start b p [] h = ground (arith, h)
not_bracket start b p (c ∷ bs) h = elim (Bool-cases (runtime_json_whitespace c)) [
  | inl e ↦ rw e (not_bracket start b p bs h)
  | inr e ↦ rw (e, scan_chunk_full start bs ((b, p) ∷ (c, start + length bs) ∷ []) refl, h)
]

scan_chunk-last_bracket : (bs : List ℕ) → appended_at (scan_chunk 0 bs []) ≡ last_bracket bs
unfolding scan_chunk last_bracket
scan_chunk-last_bracket [] = refl
scan_chunk-last_bracket (b ∷ bs) = elim (Bool-cases (runtime_json_whitespace b)) [
  | inl e ↦ rw e (scan_chunk-last_bracket bs)
  | inr e ↦ elim (Bool-cases (eqb b 93)) [
    | inl h ↦
        let z : 0 + length bs ≡ length bs = omega arith in
        rw (e, h) (scan_chunk-opens 0 b _ bs h ∙ ap (λ n. some (n, opens bs)) z)
    | inr h ↦ rw (e, h) (not_bracket 0 b _ bs h)
  ]
]

-- Reading a file in chunks from its end gives what one pass over its bytes from the last to the
-- first gives: the place of the last byte that is no white space, if that is a `]`, and whether the
-- byte before it that is no white space is a `[`; else the error.
pub find_json_array_append_position-last_bracket :
    (file : List ℕ) → find_json_array_append_position file ≡ last_bracket (backwards file)
unfolding find_json_array_append_position
find_json_array_append_position-last_bracket file =
    ap appended_at
      (scan_back-scan_chunk (length file) file (length file) [] (omega arith) (omega arith))
    ∙ ap (λ bs. appended_at (scan_chunk 0 (backwards bs) [])) (take_all file)
    ∙ scan_chunk-last_bracket (backwards file)
