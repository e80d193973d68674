-- ===== src/Strings.antt =====
-- C strings in arrays of bytes, as the programs of the chapters use them.
use geek_network_programming.Base.{
  ℕ, zero, suc, ◌≡◌, ◌≢◌, refl, Bool, true, false, ◌&&◌, List, [], ◌∷◌, ◌++◌, ◌==◌, if◌then◌else◌,
  length, drop,
}
use geek_network_programming.Base.Result.{Result, ok, fault, ◌>>=◌}

-- the string at the start of an array, up to its first zero byte; without one it is read past its end
unfoldable pub c_string : List ℕ → Result (List ℕ)
c_string [] = fault
c_string (zero ∷ cs) = ok []
c_string (suc c ∷ cs) = do s ← c_string cs; ok (suc c ∷ s)

-- an array after `bs` has been read to its start
abbrev pub overwrite : List ℕ → List ℕ → List ℕ
overwrite bs old = bs ++ drop (length bs) old

-- `strncmp(s, prefix, strlen(prefix)) == 0`
unfoldable pub starts_with : (prefix s : List ℕ) → Bool
starts_with [] s = true
starts_with (c ∷ cs) [] = false
starts_with (c ∷ cs) (d ∷ ds) = c == d && starts_with cs ds

-- A newline at the end is dropped. For an empty string the code looks at `s[-1]`.
unfoldable pub strip_newline : List ℕ → Result (List ℕ)
strip_newline [] = fault
strip_newline (c ∷ []) = ok (if c == b'\n' then [] else c ∷ [])
strip_newline (c ∷ d ∷ cs) = do s ← strip_newline (d ∷ cs); ok (c ∷ s)

-- no zero byte among the bytes
abbrev pub NoZero : List ℕ → Type 0
NoZero [] = Unit {0}
NoZero (c ∷ cs) = (c ≢ 0) × NoZero cs

pub c_string-append : (cs more : List ℕ) → NoZero cs → c_string (cs ++ 0 ∷ more) ≡ ok cs
unfolding c_string
c_string-append [] more n = refl
c_string-append (zero ∷ cs) more (z, n) = absurd (z refl)
c_string-append (suc c ∷ cs) more (z, n) = rw (c_string-append cs more n) refl
