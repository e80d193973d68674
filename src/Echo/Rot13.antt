-- ===== src/Echo/Rot13.antt =====
-- The rotation of letters by 13 places.
use geek_network_programming.Base.{
  ℕ, zero, suc, ◌<◌, ◌≡◌, refl, ◌⊎◌, inl, inr, Bool, true, false, not, ◌&&◌, ◌||◌, ◌==◌, arith,
}
use geek_network_programming.Echo.{between, rot13_char}

-- two tests with the same answer
abbrev agree : Bool → Bool → Bool
agree true b = b
agree false b = not b

abbrev pub is_lower : ℕ → Bool
is_lower c = between b'a' b'z' c

abbrev pub is_upper : ℕ → Bool
is_upper c = between b'A' b'Z' c

abbrev fine : ℕ → Bool
fine c =
    (rot13_char (rot13_char c) == c)
    && (agree (is_lower (rot13_char c)) (is_lower c)
        && (agree (is_upper (rot13_char c)) (is_upper c)
            && agree (rot13_char c == c) (not (is_lower c || is_upper c))))

-- the test of every byte under a bound
fine_bytes : ℕ → Bool
fine_bytes zero = true
fine_bytes (suc c) = fine_bytes c && fine c

fine_bytes-fine : (bound : ℕ) → fine_bytes bound ≡ true → (c : ℕ) → c < bound → fine c ≡ true
unfolding fine_bytes
fine_bytes-fine zero run c lt = absurd (omega arith)
fine_bytes-fine (suc bound) run c lt = elim (below_or_last bound c lt) [
  | inl under ↦ fine_bytes-fine bound (ground arith) c under
  | inr last ↦ rw last (ground arith)
]
  where
    below_or_last : (b c : ℕ) → c < suc b → (c < b) ⊎ (c ≡ b)
    below_or_last b c lt = omega arith

fine_256 : fine_bytes 256 ≡ true
unfolding fine_bytes rot13_char
fine_256 = refl

agree-eq : (a b : Bool) → agree a b ≡ true → a ≡ b
agree-eq true b e = ground arith
agree-eq false b e = ground arith

fine-parts :
    (a b c d e f g : Bool)
    → (a && (agree b c && (agree d e && agree f g))) ≡ true
    → (a ≡ true) × (b ≡ c) × (d ≡ e) × (f ≡ g)
fine-parts a b c d e f g h = ground arith

-- For every byte, the rotation is undone by a second one; it is a lower case letter exactly if the
-- byte is one, an upper case letter exactly if the byte is one, and the byte itself exactly if
-- that is no letter.
pub rot13_char-rot13_char :
    (c : ℕ)
    → c < 256
    → (rot13_char (rot13_char c) ≡ c)
      × (is_lower (rot13_char c) ≡ is_lower c)
      × (is_upper (rot13_char c) ≡ is_upper c)
      × ((rot13_char c == c) ≡ not (is_lower c || is_upper c))
rot13_char-rot13_char c lt =
    let (twice, lower, upper, moved) =
      fine-parts (rot13_char (rot13_char c) == c) (is_lower (rot13_char c)) (is_lower c)
        (is_upper (rot13_char c)) (is_upper c) (rot13_char c == c) (not (is_lower c || is_upper c))
        (fine_bytes-fine 256 fine_256 c lt) in
    (ground arith, lower, upper, moved)
