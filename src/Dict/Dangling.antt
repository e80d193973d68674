-- ===== src/Dict/Dangling.antt =====
-- `dictDel` of lib/dict.c while a rehash is under way: the entry kept from the first table's chain.
use geek_network_programming.Base.{
  ℕ, suc, ◌+◌, ◌^◌, ◌≤◌, ◌<◌, ◌≡◌, refl, ap, ◌∙◌, sym, ◌≢◌, Bool, false, none, some, List, [], ◌∷◌,
  ◌++◌, ◌==◌, ==_ne, ==_refl, arith, length, get_or, length-append, append-nil,
}
use geek_network_programming.Dict.Defs.{
  Ptr, null, Entry, Heap, Dict, ok, fault, load, update, slot, dict_size, same_text,
}
use geek_network_programming.Dict.Rehash.{less_used}
use mathlib.Core.Path.{subst}
use geek_network_programming.Dict.Smaller.{less_used_lem}
use geek_network_programming.Dict.Tables.{search_table, find_entry}
use geek_network_programming.Dict.Operations.{del, get, get_in_tables, unlink}
use geek_network_programming.Dict.Chains.{
  Cell, IsChain, find_entry-first, lookup_in, load-some, home, home-lt, slot-in,
}
use geek_network_programming.Dict.Model.{View, Double}
use geek_network_programming.Dict.Growth.{rehash_step-still}
use geek_network_programming.Dict.Cells.{
  NotIn, NotIn-last_of, Distinct, last_of, relink, cut, IsChain-update_ne,
}
use geek_network_programming.Dict.Removal.{
  Unique, NoText, NoText-NoKey, NoText-NotIn, Unique-Distinct, find_prev-append, find_prev_none,
  first_none-NoText,
}
use geek_network_programming.Dict.Remains.{NoText-first, last-Homes}
use geek_network_programming.Dict.Tidy.{Tidy}

-- The last cell of a chain is led to another chain, at whose head an entry `q` is freed.
IsChain-join :
    (h : Heap) (p b : Ptr) (x : Entry) (pre : List Cell) (q n : Ptr) (post : List Cell) (eb : Entry)
    → IsChain h p ((b, x) ∷ pre)
    → Distinct ((b, x) ∷ pre)
    → NotIn q ((b, x) ∷ pre)
    → IsChain h n post
    → NotIn q post
    → NotIn (last_of b pre) post
    → h (last_of b pre) ≡ some eb
    → IsChain (cut h (last_of b pre) eb n q) p (relink ((b, x) ∷ pre) n ++ post)
IsChain-join h p b x [] q n post eb (same, given, at, rest) d (ne, nq) c nqp nb last =
    let entry : eb ≡ x = cc in
    (
      same,
      given,
      ground arith,
      IsChain-update_ne (update h b (some (record eb { next = n }))) q none n post nqp
          (IsChain-update_ne h b (some (record eb { next = n })) n post nb c),
    )
IsChain-join h p b x ((r, y) ∷ pre) q n post eb (same, given, at, rest) (nd, d) (ne, nq) c nqp nb
      last =
    let apart : last_of r pre ≢ b = NotIn-last_of b r pre (nd.0) (nd.1) in
    (
      same,
      given,
      rw (==_ne b q ne, ==_ne b (last_of r pre) (λ (s : b ≡ last_of r pre). apart (sym s))) at,
      IsChain-join h x.next r y pre q n post eb rest d nq c nqp nb last,
    )

NoText-join :
    (text : Ptr → List ℕ) (s : List ℕ) (cs : List Cell) (n : Ptr) (post : List Cell)
    → NoText text s cs
    → NoText text s post
    → NoText text s (relink cs n ++ post)
NoText-join text s [] n post a z = z
NoText-join text s ((q, e) ∷ []) n post (a, u) z = (a, z)
NoText-join text s ((q, e) ∷ c ∷ cs) n post (a, u) z = (a, NoText-join text s (c ∷ cs) n post u z)

length-relink : (cs : List Cell) (n : Ptr) → length (relink cs n) ≡ length cs
length-relink [] n = refl
length-relink ((q, e) ∷ []) n = refl
length-relink (c ∷ d ∷ cs) n = ap suc (length-relink (d ∷ cs) n)

load-none : (h : Heap) (p : Ptr) → h p ≡ none → load h p ≡ fault
unfolding load
load-none h p e = ground arith

-- Walking into a freed entry is a fault.
find_entry-freed :
    (test : Entry → Bool) (h : Heap) (f : ℕ) (p : Ptr)
    → p ≢ null
    → h p ≡ none
    → find_entry test h (suc f) p ≡ fault
unfolding find_entry
find_entry-freed test h f p given e = rw (==_ne p 0 given, load-none h p e) refl

module _ (text : Ptr → List ℕ) (room : Bool) {f : View} (d : Dict) (fuel : ℕ) (key : Ptr)
    (m : Double text d f) (y0 : Tidy text d.ht0 m.c0) (y1 : Tidy text d.ht1 m.c1) (b : Ptr)
    (x : Entry) (pre : List Cell) (q : Ptr) (e : Entry) (post : List Cell)
    (front : m.c0 (home d.ht0 (text key)) ≡ (b, x) ∷ pre)
    (absent : lookup_in text d.ht0 m.c0 (text key) ≡ none)
    (second : m.c1 (home d.ht1 (text key)) ≡ (q, e) ∷ post) (keyed : e.key ≡ key)
    (apart : NotIn (last_of b pre) post) (enough : d.ht0.used + d.ht1.used ≤ fuel)
    (small : fuel < 2 ^ 62) where
  abbrev i0 : ℕ
  i0 = home d.ht0 (text key)

  abbrev i1 : ℕ
  i1 = home d.ht1 (text key)

  abbrev p0 : Ptr
  p0 = get_or d.ht0.table i0 null

  abbrev last : Ptr
  last = last_of b pre

  abbrev cells : List Cell
  cells = (b, x) ∷ pre

  -- what is left when the last entry of the first table's chain is `eb`
  abbrev left : Entry → Dict
  left eb = record d { ht1 = less_used d.ht1; heap = cut d.heap last eb e.next q }

  chain0 : IsChain d.heap p0 cells
  chain0 = rw front at (m.holds0.chains i0 (home-lt (text key) m.holds0))

  chain1 : IsChain d.heap q ((q, e) ∷ post)
  chain1 =
      let c : IsChain d.heap (get_or d.ht1.table i1 null) ((q, e) ∷ post) =
        rw second at (m.holds1.chains i1 (home-lt (text key) m.holds1)) in
      (refl, c.1, c.2, c.3)

  head0 : slot d.ht0 i0 ≡ ok p0
  head0 = slot-in d.ht0 i0 (omega (arith, m.holds0.width, home-lt (text key) m.holds0))

  head1 : slot d.ht1 i1 ≡ ok q
  head1 =
      let lt = home-lt (text key) m.holds1 in
      let c : IsChain d.heap (get_or d.ht1.table i1 null) ((q, e) ∷ post) =
        rw second at (m.holds1.chains i1 lt) in
      slot-in d.ht1 i1 (omega (arith, m.holds1.width)) ∙ ap ok (c.0)

  missing : NoText text (text key) cells
  missing = rw front at (first_none-NoText text (text key) (m.c0 i0) absent)

  enough0 : length cells ≤ d.ht0.used
  enough0 = omega (arith, m.holds0.counted i0, ap length front)

  enough1 : suc (length post) ≤ d.ht1.used
  enough1 = omega (arith, m.holds1.counted i1, ap length second)

  last_entry : (eb : Entry) × (d.heap last ≡ some eb) × (last ≢ 0)
  last_entry =
      let front' : m.c0 i0 ≡ cells ++ [] = front ∙ sym (append-nil cells) in
      let (eb, at, own, given) =
        last-Homes text d.ht0 i0 d.heap p0 b x pre []
          (rw front' at (m.holds0.chains i0 (home-lt (text key) m.holds0)))
          (rw front' at (y0.homes i0)) in
      (eb, at, given)

  del-left :
      (eb : Entry)
      → d.heap last ≡ some eb
      → last ≢ 0
      → del text room (suc fuel) d key ≡ ok (q, left eb)
  unfolding del unlink
  del-left eb at given =
      let one = enough0 in
      let two = enough1 in
      let find0 =
        find_prev_none d.heap (suc fuel) key null p0 cells chain0
          (NoText-NoKey text key cells missing) (omega arith) in
      let find1 =
        find_prev-append d.heap (suc fuel) key last q [] q e post chain1 tt (sym keyed)
          (omega arith) in
      let some_ : (dict_size d == 0) ≡ false = ==_ne (dict_size d) 0 (omega arith) in
      rw
        (
          some_,
          rehash_step-still text room fuel d (omega arith),
          head0,
          find0,
          m.going,
          head1,
          find1,
          ==_ne q 0 (chain1.1),
          load-some d.heap q e (chain1.2),
          ==_ne last 0 given,
          load-some d.heap last eb at,
        )
        refl

  unique1 : Unique text ((q, e) ∷ post)
  unique1 = rw second at (y1.unique i1)

  -- the first table's chain now leads on into the second's
  joined :
      (eb : Entry) → d.heap last ≡ some eb → IsChain (left eb).heap p0 (relink cells e.next ++ post)
  joined eb at =
      let texts : text e.key ≡ text key = ap text keyed in
      let missing' : NoText text (text e.key) cells =
        subst (λ s. NoText text s cells) (sym texts) missing in
      IsChain-join d.heap p0 b x pre q e.next post eb chain0
        (Unique-Distinct text d.heap p0 cells chain0 (rw front at (y0.unique i0)))
        (NoText-NotIn text d.heap p0 q e cells (chain1.2) chain0 missing') (chain1.3)
        (Unique-Distinct text d.heap q ((q, e) ∷ post) chain1 unique1).0 apart at

  get-left : (eb : Entry) → d.heap last ≡ some eb → get text room (suc fuel) (left eb) key ≡ fault
  unfolding get get_in_tables search_table slot
  get-left eb at =
      let k = text key in
      let one = enough0 in
      let two = enough1 in
      let rest = relink cells e.next ++ post in
      let others : NoText text k post = rw (ap text keyed) at (unique1.0) in
      let nothing =
        NoText-first text k rest (NoText-join text k cells e.next post missing others) in
      let test = λ (z : Entry). same_text k (text z.key) in
      let long = length-append (relink cells e.next) post in
      let long' = length-relink cells e.next in
      let d' = left eb in
      let find0 = find_entry-first test d'.heap (suc fuel) p0 rest (joined eb at) (omega arith) in
      let find1 = find_entry-freed test d'.heap fuel q (chain1.1) (rw (==_refl q) refl) in
      let some_ : (dict_size d' == 0) ≡ false =
        ==_ne (dict_size d') 0 (omega (arith, less_used_lem d.ht1.used)) in
      rw
        (
          some_,
          rehash_step-still text room fuel d' (omega arith),
          head0,
          find0,
          nothing,
          m.going,
          head1,
          find1,
        )
        refl

  -- dictDel while a rehash is under way, for a string that the first table does not have and whose
  -- entry, with its key at the given address, heads its slot of the second table, when the
  -- string's slot of the first table is not empty, the tables are in order, the last entry of that
  -- chain is not in the chain of the second slot, and the rounds are at least one more than there
  -- are entries and at most 2 ^ 62: it returns the entry and frees it, but the slot of the second
  -- table still leads to it, and a dictGet of the string that follows reads the freed entry.
  pub del-Dangles :
      (d' : Dict) × (del text room (suc fuel) d key ≡ ok (q, d'))
      × (d'.heap q ≡ none)
      × (slot d'.ht1 i1 ≡ ok q)
      × (get text room (suc fuel) d' key ≡ fault)
  unfolding slot
  del-Dangles =
      let (eb, at, given) = last_entry in
      (left eb, del-left eb at given, rw (==_refl q) refl, head1, get-left eb at)
