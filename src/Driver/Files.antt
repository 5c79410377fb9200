-- ===== src/Driver/Files.antt =====
-- About what `readfile` (tools/ubpf/vm/test.c) returns.
use ve_bpf.Base.{
  ℕ, zero, suc, ◌+◌, ◌-◌, ◌≤◌, ◌<◌, ◌≡◌, ◌≢◌, refl, ap, ◌∙◌, true, false, ◌||◌, some, List, [], ◌∷◌,
  ◌++◌, ltb, if◌then◌else◌, length, take, drop, length-take, length-drop, arith,
}
use ve_bpf.Vm.State.{Name, str_eq}
use ve_bpf.Driver.ReadFile.{
  Stdio, contents, not_read, too_large, read_from, finish_read, read_stream, readfile,
}

take-all : (n : ℕ) (xs : List ℕ) → length xs ≤ n → take n xs ≡ xs
take-all zero [] h = refl
take-all zero (x ∷ xs) h = absurd (omega arith)
take-all (suc n) [] h = refl
take-all (suc n) (x ∷ xs) h = ap (λ (ys : List ℕ). x ∷ ys) (take-all n xs (omega arith))

length-zero : (xs : List ℕ) → length xs ≡ 0 → xs ≡ []
length-zero [] h = refl
length-zero (x ∷ xs) h = absurd (omega arith)

length-take-zero : (n : ℕ) (xs : List ℕ) → length xs ≡ 0 → length (take n xs) ≡ 0
length-take-zero n xs h = ap (λ (ys : List ℕ). length ys) (take-all n xs (omega arith)) ∙ h

-- `content` is what is left to read of a stream without errors: `fread` gives as much of it as it is
-- asked for, and notes the end of the file when there is less.
pub record IsStream {S : Type 0} (io : Stdio S) (content : S → List ℕ) : Type 0 where
  pub chunk : (n : ℕ) (s : S) → (io.fread n s).0 ≡ take n (content s)
  pub left : (n : ℕ) (s : S) → content (io.fread n s).1 ≡ drop n (content s)
  pub ends : (n : ℕ) (s : S) → io.feof (io.fread n s).1 ≡ (io.feof s || ltb (length (content s)) n)
  pub no_error : (s : S) → io.ferror s ≡ false

module _ {S : Type 0} (io : Stdio S) (content : S → List ℕ) (stream : IsStream io content) where
  read_from-last :
      (fuel room : ℕ) (d : List ℕ) (s : S)
      → length (take room (content s)) ≡ 0
      → read_from io (suc fuel) room d s ≡ some (d, (io.fread room s).1)
  unfolding read_from
  read_from-last fuel room d s h =
      let same = ap (λ (xs : List ℕ). length xs) (stream.chunk room s) in ground arith

  read_from-more :
      (fuel room : ℕ) (d : List ℕ) (s : S)
      → length (take room (content s)) ≢ 0
      → read_from io (suc fuel) room d s
        ≡ read_from io fuel
            (room - length (take room (content s)))
            (d ++ take room (content s))
            (io.fread room s).1
  unfolding read_from
  read_from-more fuel room d s h = let same = stream.chunk room s in rw same (ground arith)

  -- The last round, and whether the end of the file has been seen in it.
  finish-last :
      (fuel room : ℕ) (d : List ℕ) (s : S)
      → length (take room (content s)) ≡ 0
      → finish_read io (read_from io (suc fuel) room d s)
        ≡ (if io.feof s || ltb (length (content s)) room then contents d else not_read too_large)
  unfolding finish_read
  finish-last fuel room d s h =
      let last = read_from-last fuel room d s h in
      let ends = stream.ends room s in
      let no_error = stream.no_error (io.fread room s).1 in rw last (ground arith)

  length-take-content :
      (room : ℕ) (s : S)
      → length (content s) ≤ room
      → length (take room (content s)) ≡ length (content s)
  length-take-content room s h = ap (λ (xs : List ℕ). length xs) (take-all room (content s) h)

  length-left :
      (room : ℕ) (s : S) → length (content s) ≤ room → length (content (io.fread room s).1) ≡ 0
  length-left room s h =
      let left = ap (λ (xs : List ℕ). length xs) (stream.left room s) in
      omega (arith, length-drop room (content s))

  -- A file that ends before `room`, in one round if it is empty and in two if it is not.
  finish-short :
      (fuel room n : ℕ) (s : S)
      → length (content s) ≡ n
      → n < room
      → finish_read io (read_from io (suc (suc fuel)) room [] s) ≡ contents (content s)
  finish-short fuel room zero s e h =
      let count = length-take-content room s (omega arith) in
      let last = finish-last (suc fuel) room [] s (omega arith) in
      let empty : content s ≡ [] = length-zero (content s) e in ground arith
  finish-short fuel room (suc n) s e h =
      let all = take-all room (content s) (omega arith) in
      let count = length-take-content room s (omega arith) in
      let s' = (io.fread room s).1 in
      let more = read_from-more (suc fuel) room [] s (λ z. omega arith) in
      let ends = stream.ends room s in
      let nothing = length-left room s (omega arith) in
      let last =
        finish-last fuel (room - length (take room (content s))) (take room (content s)) s'
          (length-take-zero (room - length (take room (content s))) (content s') nothing) in
      rw more (ground arith)

  -- Another one: all `room` bytes are read, and the end is not seen.
  finish-long :
      (fuel room : ℕ) (s : S)
      → io.feof s ≡ false
      → room ≤ length (content s)
      → finish_read io (read_from io (suc (suc fuel)) room [] s) ≡ not_read too_large
  finish-long fuel zero s f h = let last = finish-last (suc fuel) zero [] s refl in ground arith
  finish-long fuel (suc n) s f h =
      let count = length-take (suc n) (content s) h in
      let s' = (io.fread (suc n) s).1 in
      let more = read_from-more (suc fuel) (suc n) [] s (λ z. omega arith) in
      let ends = stream.ends (suc n) s in
      let none_left : suc n - length (take (suc n) (content s)) ≡ 0 = omega arith in
      let last =
        finish-last fuel (suc n - length (take (suc n) (content s))) (take (suc n) (content s)) s'
          (rw none_left refl) in
      rw more (ground arith)

  -- Where `calloc` succeeds and the path leads to a stream without errors whose end has not been seen,
  -- `readfile` returns all that it holds if that is fewer than `maxlen` bytes, and refuses it as too large
  -- otherwise.
  pub readfile-content :
      (path : Name) (maxlen : ℕ) (s : S)
      → (if str_eq path (45 ∷ []) then io.standard_input else io.fopen path) ≡ some s
      → io.feof s ≡ false
      → readfile io true path maxlen
        ≡ (if ltb (length (content s)) maxlen then contents (content s) else not_read too_large)
  unfolding readfile read_stream
  readfile-content path zero s h f =
      let fuel : zero + 1 ≡ suc zero = omega arith in
      let last = finish-last zero zero [] s refl in rw (h, fuel) (ground arith)
  readfile-content path (suc m) s h f =
      let fuel : suc m + 1 ≡ suc (suc m) = omega arith in
      let short = finish-short m (suc m) (length (content s)) s refl in
      let long = finish-long m (suc m) s f in rw (h, fuel) (ground arith)
