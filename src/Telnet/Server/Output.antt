-- ===== src/Telnet/Server/Output.antt =====
-- `execute_system_cmd` of mid-homework/telnet_server.c: the output of a command in a buffer of 16384 bytes.
use geek_network_programming.Base.{
  ℕ, zero, suc, ◌+◌, ◌-◌, ◌≤◌, ◌<◌, ◌≡◌, refl, ◌∙◌, Bool-cases, inl, inr, Option, none, some, List,
  [], ◌∷◌, ◌++◌, append_assoc, ltb, if◌then◌else◌, length, length-append, take, take-append, drop,
  drop-append, drop-drop, false, replicate, arith,
}
use geek_network_programming.Base.Result.{Result, ok, fault, out_of_fuel, ◌>>=◌}
use geek_network_programming.Strings.{c_string, NoZero, c_string-append}

abbrev pub data_size : ℕ
data_size = 16384

-- `bzero(data, sizeof(data))`: the size of a pointer, 8
abbrev pub zeroed : ℕ
zeroed = 8

-- memcpy() of a text to position `i` of an array
abbrev pub copy_at : List ℕ → ℕ → List ℕ → List ℕ
copy_at buf i s = take i buf ++ (s ++ drop (i + length s) buf)

-- The loop over the lines that fgets() reads; `i` is `data_idx`. A line is taken up to its first zero
-- byte, which `strlen` finds: it is given so.
unfoldable pub copy_lines : List (List ℕ) → List ℕ → ℕ → Result (List ℕ)
copy_lines [] buf i = ok buf
copy_lines (s ∷ lines) buf i =
    let rest = copy_lines lines (copy_at buf i s) (i + length s) in
    if ltb data_size (i + length s) then fault else rest

-- `execute_system_cmd`: the array after it. `junk` is what malloc's memory holds; `none` is a popen()
-- that failed, and else there are the lines of the command's output.
unfoldable pub execute_system_cmd : List ℕ → Option (List (List ℕ)) → Result (List ℕ)
unfolding copy_lines
execute_system_cmd junk none = ok (replicate zeroed 0 ++ drop zeroed junk)
execute_system_cmd junk (some lines) = copy_lines lines (replicate zeroed 0 ++ drop zeroed junk) 0

abbrev pub output : List (List ℕ) → List ℕ
output [] = []
output (s ∷ lines) = s ++ output lines

copy_at-append :
    (pre rest s : List ℕ)
    → copy_at (pre ++ rest) (length pre) s ≡ (pre ++ s) ++ drop (length s) rest
copy_at-append pre rest s = rw (take-append pre rest, drop-append pre rest (length s), append_assoc)

-- From position `length pre` on, the lines are stored one behind the other if they fit.
copy_lines-output :
    (lines : List (List ℕ)) (pre rest : List ℕ)
    → length pre + length (output lines) ≤ data_size
    → copy_lines lines (pre ++ rest) (length pre)
      ≡ ok (pre ++ (output lines ++ drop (length (output lines)) rest))
unfolding copy_lines
copy_lines-output [] pre rest h = refl
copy_lines-output (s ∷ lines) pre rest h =
    let l = length-append s (output lines) in
    let fits : ltb data_size (length pre + length s) ≡ false = ground arith in
    let ih =
      copy_lines-output lines (pre ++ s) (drop (length s) rest)
        (omega (arith, length-append pre s)) in
    rw
      (
        fits,
        copy_at-append pre rest s,
        ← length-append pre s,
        ih,
        l,
        drop-drop (length s) (length (output lines)) rest,
        append_assoc pre s (output lines ++ drop (length s + length (output lines)) rest),
        append_assoc s (output lines) (drop (length s + length (output lines)) rest),
      )
      refl

copy_lines-overflow :
    (lines : List (List ℕ)) (buf : List ℕ) (i : ℕ)
    → data_size < i + length (output lines)
    → i ≤ data_size
    → copy_lines lines buf i ≡ fault
unfolding copy_lines
copy_lines-overflow [] buf i h le = absurd (omega arith)
copy_lines-overflow (s ∷ lines) buf i h le =
    let l = length-append s (output lines) in
    elim (Bool-cases (ltb data_size (i + length s))) [
      | inl e ↦ rw e refl
      | inr e ↦
          rw e (
            copy_lines-overflow lines (copy_at buf i s) (i + length s) (omega arith) (ground arith))
    ]

c_string-behind :
    (xs ys : List ℕ) → NoZero xs → c_string (xs ++ ys) ≡ (c_string ys >>= λ s. ok (xs ++ s))
unfolding c_string
c_string-behind [] ys n = bind_ok (c_string ys)
  where
    bind_ok : (r : Result (List ℕ)) → r ≡ (r >>= λ s. ok s)
    bind_ok (ok x) = refl
    bind_ok fault = refl
    bind_ok out_of_fuel = refl
c_string-behind (zero ∷ xs) ys (z, n) = absurd (z refl)
c_string-behind (suc c ∷ xs) ys (z, n) = rw (c_string-behind xs ys n) (again (c_string ys))
  where
    again :
        (r : Result (List ℕ))
        → ((r >>= λ s. ok (xs ++ s)) >>= λ s. ok (suc c ∷ s)) ≡ (r >>= λ s. ok (suc c ∷ xs ++ s))
    again (ok x) = refl
    again fault = refl
    again out_of_fuel = refl

drop-zeros :
    (k n : ℕ) (ys : List ℕ)
    → n < k
    → drop n (replicate k 0 ++ ys) ≡ 0 ∷ drop (suc n) (replicate k 0 ++ ys)
drop-zeros zero n ys h = absurd (omega arith)
drop-zeros (suc k) zero ys h = refl
drop-zeros (suc k) (suc n) ys h = drop-zeros k n ys (omega arith)

-- behind the first 8 bytes, malloc's memory is as it was
drop-zeroed :
    (junk : List ℕ) (n : ℕ)
    → zeroed ≤ n
    → drop n (replicate zeroed 0 ++ drop zeroed junk) ≡ drop n junk
drop-zeroed junk n h =
    let split : n ≡ 8 + (n - 8) = omega arith in
    rw split (drop-append (replicate 8 0) (drop 8 junk) (n - 8) ∙ drop-drop 8 (n - 8) junk)

-- what `strcpy` reads of the array once the output is stored
stored_string :
    (junk out : List ℕ)
    → NoZero out
    → c_string (out ++ drop (length out) (replicate zeroed 0 ++ drop zeroed junk)) ≡ (
        if ltb (length out) zeroed
        then ok out
        else (c_string (drop (length out) junk) >>= λ s. ok (out ++ s)))
stored_string junk out n = elim (Bool-cases (ltb (length out) zeroed)) [
  | inl e ↦
      rw (e, drop-zeros zeroed (length out) (drop zeroed junk) (ground arith))
        (c_string-append out (drop (suc (length out)) (replicate zeroed 0 ++ drop zeroed junk)) n)
  | inr e ↦
      rw (e, drop-zeroed junk (length out) (ground arith))
        (c_string-behind out (drop (length out) junk) n)
]

-- What execute_system_cmd leaves to be copied, for output without zero bytes: above 16384 bytes it
-- writes outside its buffer; below 8 bytes the string is the output; between these it is the
-- output and then whatever malloc's memory held behind it up to a zero byte, and without one it is
-- read out of bounds.
pub execute_system_cmd-listing :
    (junk : List ℕ) (lines : List (List ℕ))
    → NoZero (output lines)
    → (execute_system_cmd junk (some lines) >>= c_string) ≡ (
        if ltb data_size (length (output lines))
        then fault
        else if ltb (length (output lines)) zeroed
        then ok (output lines)
        else (c_string (drop (length (output lines)) junk) >>= λ s. ok (output lines ++ s)))
unfolding execute_system_cmd
execute_system_cmd-listing junk lines n =
    let out = output lines in
    let buf = replicate 8 0 ++ drop 8 junk in
    elim (Bool-cases (ltb data_size (length out))) [
      | inl e ↦ rw (e, copy_lines-overflow lines buf 0 (ground arith) (omega arith)) refl
      | inr e ↦ rw (e, copy_lines-output lines [] buf (ground arith)) (stored_string junk out n)
    ]
