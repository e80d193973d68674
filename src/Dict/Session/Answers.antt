-- ===== src/Dict/Session/Answers.antt =====
-- Operations on a dictionary of lib/dict.c that has room for all the keys added.
use geek_network_programming.Base.{
  ℕ, suc, ◌+◌, ◌^◌, ◌≤◌, ◌<◌, ◌≡◌, refl, ap, ◌∙◌, sym, inl, inr, true, Bool-cases, Option-cases,
  Option, none, some, List, [], ◌∷◌, arith,
}
use geek_network_programming.Dict.Defs.{Ptr, null, Entry, Dict, ok, same_text, update}
use geek_network_programming.Dict.Operations.{add, del}
use geek_network_programming.Dict.Chains.{same_text-eq, home, made, extended}
use geek_network_programming.Dict.Model.{View, single, Models-Stored}
use geek_network_programming.Dict.Smaller.{without_key}
use geek_network_programming.Dict.Del.{Deleted, del-Deleted}
use geek_network_programming.Dict.AddDel.{add_run, added}
use geek_network_programming.Dict.Session.{
  Op, store, lookup, remove, perform, run, answer, changed, answers, final, inserts, Fresh,
  Fresh-keeps, Fresh-update,
}
use geek_network_programming.Dict.Session.Idle.{InOrder, InOrder-same, get_idle, add_there}

module _ (text : Ptr → List ℕ) where
  -- what one operation leaves, with the operations `ops` to come
  record Stepped (d : Dict) (f : View) (op : Op) (ops : List Op) (d' : Dict) : Type 0 where
    order : InOrder text d' (changed text op f)
    size : d'.ht0.size ≡ d.ht0.size
    space : d'.ht0.used + inserts ops ≤ d'.ht0.size
    fresh : Fresh d'.heap ops

  module _ (interned : (a b : Ptr) → text a ≡ text b → a ≡ b) (fuel : ℕ) (d : Dict) (f : View)
      (w : InOrder text d f) (room : d.ht0.size ≤ fuel) (small : d.ht0.size + 1 < 2 ^ 62) where
    abbrev entry : Ptr → Ptr → Entry
    entry key val = made text d.ht0 (home d.ht0 (text key)) key val

    abbrev grown : Ptr → Ptr → Ptr → Dict
    grown a key val = record d {
      ht0 = extended text d.ht0 (home d.ht0 (text key)) a;
      heap = update d.heap a (some (entry key val));
    }

    insert-Stepped :
        (a key val : Ptr) (ops : List Op)
        → Fresh d.heap (store a key val ∷ ops)
        → d.ht0.used + suc (inserts ops) ≤ d.ht0.size
        → (d' : Dict) × (add text true (suc fuel) d a key val
            ≡ ok (answer text (store a key val) f, d'))
          × Stepped d f (store a key val) ops d'
    insert-Stepped a key val ops (given, free_, spared, fresh) le =
        elim (Option-cases (f (text key))) [
          | inl absent ↦
              let less : d.ht0.used < d.ht0.size = omega arith in
              let (m, y) =
                added text d fuel a key val w.model w.tidy given free_ absent less (omega arith)
                  (omega arith) in
              (
                grown a key val,
                add_run text d fuel a key val w.model w.tidy given free_ absent less (omega arith)
                      (omega arith)
                    ∙ rw (answer, absent) refl,
                record {
                  order = rw (changed, absent) (record { model = m; tidy = y });
                  size = refl;
                  space = omega arith;
                  fresh = Fresh-update d.heap a (some (entry key val)) ops spared fresh;
                },
              )
          | inr (x, there) ↦ (
            d,
            add_there text d f fuel a key val x w (omega arith) (omega arith) there
                ∙ rw (answer, there) refl,
            record {
              order = rw (changed, there) w;
              size = refl;
              space = omega arith;
              fresh = fresh;
            },
          )
        ]

    stored_key :
        (key q v : Ptr) (e : Entry) → f (text key) ≡ some (q, v) → d.heap q ≡ some e → e.key ≡ key
    stored_key key q v e stored at =
        let s = Models-Stored text (text key) (single w.model) stored in
        let both : ◌≡◌ {A = Option Entry} (some s.entry) (some e) = sym s.at ∙ at in
        let same : s.entry ≡ e = cc in
        sym (interned key e.key (same_text-eq (text key) (text e.key) (rw same at s.keyed)))

    remove-Stepped :
        (key : Ptr) (ops : List Op)
        → Fresh d.heap ops
        → d.ht0.used + inserts ops ≤ d.ht0.size
        → (d' : Dict) × (del text true (suc fuel) d key ≡ ok (answer text (remove key) f, d'))
          × Stepped d f (remove key) ops d'
    remove-Stepped key ops fresh le =
        let (r, run, out) =
          del-Deleted text true d fuel key w.model w.tidy (omega arith) (stored_key key) in
        elim (Option-cases (f (text key))) [
          | inl absent ↦
              let (null_, same) : Deleted text f (text key) d none r = rw absent at out in
              (
                d,
                run
                    ∙ ap ok (
                        let both : r ≡ (null, d) =
                          ap (λ p. (p, r.1)) null_ ∙ ap (λ (b : Dict). (null, b)) same in
                        both)
                    ∙ rw (answer, absent) refl,
                record {
                  order =
                      InOrder-same text d f (without_key f (text key))
                        (λ q. elim (Bool-cases (same_text q (text key))) [
                          | inl t ↦ rw t (sym (ap f (same_text-eq q (text key) t) ∙ absent))
                          | inr t ↦ rw t refl
                        ])
                        w;
                  size = refl;
                  space = le;
                  fresh = fresh;
                },
              )
          | inr ((q, v), there) ↦
              let (at, (m, y), freed, count, size, keeps) : Deleted text f (text key) d
                  (some (q, v)) r =
                rw there at out in
              (
                r.1,
                run
                    ∙ ap ok (let both : r ≡ (q, r.1) = ap (λ p. (p, r.1)) at in both)
                    ∙ rw (answer, there) refl,
                record {
                  order = record { model = m; tidy = y };
                  size = size;
                  space = omega arith;
                  fresh = Fresh-keeps d.heap r.1.heap ops keeps fresh;
                },
              )
        ]

    perform-Stepped :
        (op : Op) (ops : List Op)
        → Fresh d.heap (op ∷ ops)
        → d.ht0.used + inserts (op ∷ ops) ≤ d.ht0.size
        → (d' : Dict) × (perform text (suc fuel) op d ≡ ok (answer text op f, d'))
          × Stepped d f op ops d'
    perform-Stepped (store a key val) ops fresh le = insert-Stepped a key val ops fresh le
    perform-Stepped (remove key) ops fresh le = remove-Stepped key ops fresh le
    perform-Stepped (lookup key) ops fresh le = (
      d,
      get_idle text d f fuel key w (omega arith) (omega arith),
      record { order = w; size = refl; space = le; fresh = fresh },
    )

  -- On a dictionary that is not rehashing, in which each string has one cell, in its home slot,
  -- and the counter is that of the cells, with a table of fewer than 2 ^ 62 - 1 slots that has
  -- room for one entry more for each dictAdd of the list: if keys of the same text have the same
  -- address and malloc gives each dictAdd an address of its own that was not in use, then with one
  -- round more than there are slots any list of dictAdd, dictGet and dictDel returns, operation by
  -- operation, what the map answers (DICT_OK or DICT_ERR, the address of the entry or NULL), and
  -- leaves a dictionary in the same order that stands for the map as these operations change it.
  pub run-answers :
      (interned : (a b : Ptr) → text a ≡ text b → a ≡ b) (fuel : ℕ) (ops : List Op) (d : Dict)
      (f : View)
      → InOrder text d f
      → d.ht0.size ≤ fuel
      → d.ht0.size + 1 < 2 ^ 62
      → Fresh d.heap ops
      → d.ht0.used + inserts ops ≤ d.ht0.size
      → (d' : Dict) × (run text (suc fuel) ops d ≡ ok (answers text ops f, d'))
        × InOrder text d' (final text ops f)
  unfolding run
  run-answers interned fuel [] d f w room small fresh le = (d, refl, w)
  run-answers interned fuel (op ∷ ops) d f w room small fresh le =
      let (d', one, s) = perform-Stepped interned fuel d f w room small op ops fresh le in
      let same = s.size in
      let (d'', rest, out) =
        run-answers interned fuel ops d' (changed text op f) s.order (omega arith) (omega arith)
          s.fresh s.space in
      (d'', rw (one, rest) refl, out)
