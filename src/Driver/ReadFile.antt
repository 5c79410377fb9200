-- ===== src/Driver/ReadFile.antt =====
-- `readfile` (tools/ubpf/vm/test.c). The streams of the C library are a parameter.
use ve_bpf.Base.{
  ℕ, zero, suc, ◌+◌, ◌-◌, Bool, true, false, not, Option, none, some, List, [], ◌∷◌, ◌++◌, ◌==◌,
  if◌then◌else◌, length,
}
use ve_bpf.Vm.State.{Name, str_eq}

-- What `readfile` calls; `fopen` and `fdopen` give a stream or none.
pub record Stdio (S : Type 0) : Type 0 where
  pub standard_input : Option S
  pub fopen : Name → Option S
  pub fread : ℕ → S → List ℕ × S
  pub ferror : S → Bool
  pub feof : S → Bool

-- The messages of `readfile`.
pub data FileError : Type 0 where
  cannot_open cannot_read too_large : FileError

-- `null_read` is a call of `fread` with the null pointer that `calloc` has returned.
pub data ReadFile : Type 0 where
  contents : List ℕ → ReadFile
  not_read : FileError → ReadFile
  null_read : ReadFile
  read_on : ReadFile

module _ {S : Type 0} (io : Stdio S) where
  -- The loop, with what is left of `maxlen` and what has been read; none if the fuel is spent.
  unfoldable pub read_from : ℕ → ℕ → List ℕ → S → Option (List ℕ × S)
  read_from zero room data_read s = none
  read_from (suc fuel) room data_read s =
      let (chunk, s') = io.fread room s in
      let rest = read_from fuel (room - length chunk) (data_read ++ chunk) s' in
      if length chunk == 0 then some (data_read, s') else rest

  unfoldable pub finish_read : Option (List ℕ × S) → ReadFile
  finish_read none = read_on
  finish_read (some (data_read, s)) =
      if io.ferror s
      then not_read cannot_read
      else (if not (io.feof s) then not_read too_large else contents data_read)

  unfoldable pub read_stream : Bool → ℕ → Option S → ReadFile
  read_stream allocated maxlen none = not_read cannot_open
  read_stream false maxlen (some s) = null_read
  read_stream true maxlen (some s) = finish_read (read_from (maxlen + 1) maxlen [] s)

  -- `allocated` says whether `calloc` succeeds. The path "-" is the standard input.
  unfoldable pub readfile : Bool → Name → ℕ → ReadFile
  readfile allocated path maxlen =
      read_stream allocated maxlen
        (if str_eq path (45 ∷ []) then io.standard_input else io.fopen path)
