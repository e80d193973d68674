-- ===== src/Dict/Session/Idle.antt =====
-- dictGet, and dictAdd of a key that is there, on a dictionary of lib/dict.c in order that does not
-- rehash.
use geek_network_programming.Base.{
  ℕ, suc, ◌+◌, ◌^◌, ◌≤◌, ◌<◌, ◌≡◌, refl, ◌∙◌, inl, inr, true, false, Bool-cases, some, List, ◌==◌,
  leb, arith,
}
use geek_network_programming.Dict.Defs.{Ptr, Dict, ok, dict_err, dict_size}
use geek_network_programming.Dict.Tables.{key_index}
use geek_network_programming.Dict.Operations.{add, get}
use geek_network_programming.Dict.Chains.{address}
use geek_network_programming.Dict.Model.{View, Single, single, Models-empty}
use geek_network_programming.Dict.Growth.{expand_not}
use geek_network_programming.Dict.Index.{index-Single}
use geek_network_programming.Dict.Get.{get-Single}
use geek_network_programming.Dict.Tidy.{Tidy}
use geek_network_programming.Dict.AddDel.{rehash_step_idle}

module _ (text : Ptr → List ℕ) where
  -- The dictionary stands for the map, does not rehash, and its table is in order.
  pub record InOrder (d : Dict) (f : View) : Type 0 where
    pub model : Single text d f
    pub tidy : Tidy text d.ht0 model.c

  pub InOrder-same :
      (d : Dict) (f g : View) → ((q : List ℕ) → g q ≡ f q) → InOrder d f → InOrder d g
  InOrder-same d f g e w = record {
    model = record {
      c = w.model.c;
      holds = w.model.holds;
      used1 = w.model.used1;
      still = w.model.still;
      reads = λ q. e q ∙ w.model.reads q;
    };
    tidy = w.tidy;
  }

  pub get_idle :
      (d : Dict) (f : View) (fuel : ℕ) (key : Ptr)
      → InOrder d f
      → d.ht0.used ≤ fuel
      → d.ht0.used < 2 ^ 62
      → get text true (suc fuel) d key ≡ ok (address (f (text key)), d)
  unfolding get
  get_idle d f fuel key w le small = elim (Bool-cases (dict_size d == 0)) [
    | inl e ↦
        let used1 = w.model.used1 in
        let nothing : d.ht0.used + d.ht1.used ≡ 0 = ground arith in
        rw (e, Models-empty text (text key) (single w.model) nothing) refl
    | inr e ↦
        rw
          (
            e,
            rehash_step_idle text true fuel d w.model.still,
            get-Single text true d (suc fuel) key w.model (omega arith),
          )
          refl
  ]

  pub add_there :
      (d : Dict) (f : View) (fuel : ℕ) (fresh key val : Ptr) (x : Ptr × Ptr)
      → InOrder d f
      → d.ht0.used < d.ht0.size
      → d.ht0.used ≤ fuel
      → f (text key) ≡ some x
      → add text true (suc fuel) d fresh key val ≡ ok (dict_err, d)
  unfolding add key_index
  add_there d f fuel fresh key val x w space le there =
      let more : leb d.ht0.size d.ht0.used ≡ false = ground arith in
      rw
        (
          rehash_step_idle text true fuel d w.model.still,
          expand_not d w.model.still (omega arith) more,
          index-Single text d (suc fuel) key w.model (omega arith),
          there,
        )
        refl
