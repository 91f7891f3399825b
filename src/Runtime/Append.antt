-- ===== src/Runtime/Append.antt =====
-- cmd/nana-runtime/main.go: findJSONArrayAppendPosition, on the bytes of a file. Every read succeeds;
-- none is the error of a file that is no JSON array.
use nana.Prelude.{
  ℕ, zero, suc, ◌+◌, ◌-◌, Bool, false, not, ◌&&◌, ◌||◌, Option, none, some, List, [], ◌∷◌, ◌++◌,
  eqb, ltb, if◌then◌else◌, length,
}

unfoldable pub runtime_json_whitespace : ℕ → Bool
runtime_json_whitespace b = eqb b 32 || eqb b 10 || eqb b 13 || eqb b 9

abbrev pub chunk_size : ℕ
chunk_size = 4096

abbrev pub take : ℕ → List ℕ → List ℕ
take zero bs = []
take (suc n) [] = []
take (suc n) (b ∷ bs) = b ∷ take n bs

abbrev pub drop : ℕ → List ℕ → List ℕ
drop zero bs = bs
drop (suc n) [] = []
drop (suc n) (b ∷ bs) = drop n bs

-- file.ReadAt of the bytes from start to end.
unfoldable pub read_at : List ℕ → ℕ → ℕ → List ℕ
read_at file start end = take (end - start) (drop start file)

-- The bytes of a list from the last to the first.
abbrev pub backwards : List ℕ → List ℕ
backwards [] = []
backwards (b ∷ bs) = backwards bs ++ b ∷ []

-- The slices `significant` and `positions` as one.
abbrev pub is_full : List (ℕ × ℕ) → Bool
is_full found = not (ltb (length found) 2)

-- The inner loop: the bytes from the index down to 0, in that order.
unfoldable pub scan_chunk : ℕ → List ℕ → List (ℕ × ℕ) → List (ℕ × ℕ)
scan_chunk start [] found = found
scan_chunk start (b ∷ bs) found =
    let skipped = scan_chunk start bs found in
    let kept = scan_chunk start bs (found ++ (b, start + length bs) ∷ []) in
    if is_full found then found else if runtime_json_whitespace b then skipped else kept

-- The outer loop, `fuel` times at most; subtraction stops at 0, as the loop's start does.
unfoldable pub scan_back : ℕ → List ℕ → ℕ → List (ℕ × ℕ) → List (ℕ × ℕ)
scan_back zero file offset found = found
scan_back (suc fuel) file offset found =
    let start = offset - chunk_size in
    let rest =
      scan_back fuel file start (scan_chunk start (backwards (read_at file start offset)) found) in
    if ltb 0 offset && not (is_full found) then rest else found

abbrev pub appended_at : List (ℕ × ℕ) → Option (ℕ × Bool)
appended_at [] = none
appended_at ((b, p) ∷ []) = if eqb b 93 then some (p, false) else none
appended_at ((b, p) ∷ (c, q) ∷ more) = if eqb b 93 then some (p, eqb c 91) else none

unfoldable pub find_json_array_append_position : List ℕ → Option (ℕ × Bool)
find_json_array_append_position file = appended_at (scan_back (length file) file (length file) [])
