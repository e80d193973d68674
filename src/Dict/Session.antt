-- ===== src/Dict/Session.antt =====
-- Sequences of operations on a dictionary of lib/dict.c.
use geek_network_programming.Base.{
  ℕ, suc, ◌≡◌, ◌≢◌, Option, none, some, true, List, [], ◌∷◌, ◌==◌, ==_ne,
}
use geek_network_programming.Dict.Defs.{
  Ptr, null, Entry, Heap, Dict, Result, ok, ◌>>=◌, dict_ok, dict_err, update,
}
use geek_network_programming.Dict.Operations.{add, get, del}
use geek_network_programming.Dict.Chains.{address}
use geek_network_programming.Dict.Model.{View}
use geek_network_programming.Dict.Add.{with_key}
use geek_network_programming.Dict.Smaller.{without_key}
pub mod Idle
pub mod Answers

-- `store` is a dictAdd for which malloc gives the address `fresh`.
pub data Op : Type 0 where
  store : (fresh key val : Ptr) → Op
  lookup remove : Ptr → Op

abbrev pub inserts : List Op → ℕ
inserts [] = 0
inserts (store fresh key val ∷ ops) = suc (inserts ops)
inserts (op ∷ ops) = inserts ops

-- No dictAdd of the list gets the address.
abbrev pub Spared : Ptr → List Op → Type 0
Spared a [] = Unit {0}
Spared a (store fresh key val ∷ ops) = (fresh ≢ a) × Spared a ops
Spared a (op ∷ ops) = Spared a ops

-- malloc gives each address once, and none that is in use.
abbrev pub Fresh : Heap → List Op → Type 0
Fresh h [] = Unit {0}
Fresh h (store fresh key val ∷ ops) =
    (fresh ≢ null) × (h fresh ≡ none) × Spared fresh ops × Fresh h ops
Fresh h (lookup key ∷ ops) = Fresh h ops
Fresh h (remove key ∷ ops) = Fresh h ops

pub Fresh-keeps :
    (h h' : Heap) (ops : List Op)
    → ((a : Ptr) → h a ≡ none → h' a ≡ none)
    → Fresh h ops
    → Fresh h' ops
Fresh-keeps h h' [] k w = tt
Fresh-keeps h h' (store a key val ∷ ops) k (given, free_, s, w) =
    (given, k a free_, s, Fresh-keeps h h' ops k w)
Fresh-keeps h h' (lookup key ∷ ops) k w = Fresh-keeps h h' ops k w
Fresh-keeps h h' (remove key ∷ ops) k w = Fresh-keeps h h' ops k w

pub Fresh-update :
    (h : Heap) (a : Ptr) (x : Option Entry) (ops : List Op)
    → Spared a ops
    → Fresh h ops
    → Fresh (update h a x) ops
Fresh-update h a x [] s w = tt
Fresh-update h a x (store b key val ∷ ops) (ne, s) (given, free_, t, w) =
    (given, rw (==_ne b a ne) free_, t, Fresh-update h a x ops s w)
Fresh-update h a x (lookup key ∷ ops) s w = Fresh-update h a x ops s w
Fresh-update h a x (remove key ∷ ops) s w = Fresh-update h a x ops s w

module _ (text : Ptr → List ℕ) where
  -- one operation: the status of dictAdd, or the address that is returned
  abbrev pub perform : ℕ → Op → Dict → Result (ℕ × Dict)
  perform f (store fresh key val) d = add text true f d fresh key val
  perform f (lookup key) d = get text true f d key
  perform f (remove key) d = del text true f d key

  unfoldable pub run : ℕ → List Op → Dict → Result (List ℕ × Dict)
  run f [] d = ok ([], d)
  run f (op ∷ ops) d = do (r, d') ← perform f op d; (rs, d'') ← run f ops d'; ok (r ∷ rs, d'')

  -- the same on the map
  abbrev pub answer : Op → View → ℕ
  answer (store fresh key val) f = elim (f (text key)) [ none ↦ dict_ok | some x ↦ dict_err ]
  answer (lookup key) f = address (f (text key))
  answer (remove key) f = address (f (text key))

  abbrev pub changed : Op → View → View
  changed (store fresh key val) f = elim (f (text key)) [
    | none ↦ with_key f (text key) fresh val
    | some x ↦ f
  ]
  changed (lookup key) f = f
  changed (remove key) f = without_key f (text key)

  abbrev pub answers : List Op → View → List ℕ
  answers [] f = []
  answers (op ∷ ops) f = answer op f ∷ answers ops (changed op f)

  abbrev pub final : List Op → View → View
  final [] f = f
  final (op ∷ ops) f = final ops (changed op f)
