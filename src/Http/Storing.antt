-- ===== src/Http/Storing.antt =====
-- What `add_request_line_to_dict` of chap-16/tcp_http_server.c leaves in the dictionary of lib/dict.c.
use geek_network_programming.Base.{
  ℕ, suc, ◌+◌, ◌^◌, ◌≤◌, ◌<◌, ◌≡◌, ◌≢◌, refl, ap, ◌∙◌, true, false, none, List, arith, length,
}
use geek_network_programming.Base.Result.{ok}
use geek_network_programming.Dict.Defs.{Ptr, null, Dict, dict_ok, same_text}
use geek_network_programming.Dict.Operations.{add}
use geek_network_programming.Dict.Model.{View, Models}
use geek_network_programming.Dict.Add.{with_key, Added, AddsTo, add-Models}
use geek_network_programming.Http.Request.{Addresses, add_request_line_to_dict}
use geek_network_programming.Http.RequestLine.{Word, line_of, request_line-line_of}

-- malloc has given three addresses that are not used, and each once.
pub record Fresh (at : Addresses) (d : Dict) : Type 0 where
  pub given0 : at.entry0 ≢ null
  pub given1 : at.entry1 ≢ null
  pub given2 : at.entry2 ≢ null
  pub free0 : d.heap at.entry0 ≡ none
  pub free1 : d.heap at.entry1 ≡ none
  pub free2 : d.heap at.entry2 ≡ none
  pub ne10 : at.entry1 ≢ at.entry0
  pub ne20 : at.entry2 ≢ at.entry0
  pub ne21 : at.entry2 ≢ at.entry1

-- The strings of the three keys are not there, and different.
pub record Absent (text : Ptr → List ℕ) (at : Addresses) (f : View) : Type 0 where
  pub none0 : f (text at.method_key) ≡ none
  pub none1 : f (text at.uri_key) ≡ none
  pub none2 : f (text at.version_key) ≡ none
  pub other10 : same_text (text at.uri_key) (text at.method_key) ≡ false
  pub other20 : same_text (text at.version_key) (text at.method_key) ≡ false
  pub other21 : same_text (text at.version_key) (text at.uri_key) ≡ false

module _ (text : Ptr → List ℕ) where
  -- dictAdd of a new string
  add_new :
      {f : View} (d : Dict) (fuel : ℕ) (fresh key val : Ptr)
      → Models text d f
      → f (text key) ≡ none
      → fresh ≢ null
      → d.heap fresh ≡ none
      → d.ht0.used + d.ht1.used ≤ fuel
      → d.ht0.used + d.ht1.used < 2 ^ 62
      → (d' : Dict) × (add text true (suc fuel) d fresh key val ≡ ok (dict_ok, d'))
        × Models text d' (with_key f (text key) fresh val)
        × Added fresh d d'
  add_new {f} d fuel fresh key val m absent given free_ le small =
      let ((s, d'), run, out) =
        add-Models text {f = f} fresh key val given d fuel m free_ le small in
      let (status, m', a) : AddsTo text d f (text key) fresh val none (s, d') = rw absent at out in
      (d', run ∙ ap (λ (n : ℕ). ok (n, d')) status, m', a)

  -- the map behind the three additions
  abbrev pub with_words : Addresses → View → View
  with_words at f =
      with_key
        (with_key (with_key f (text at.method_key) at.entry0 at.method) (text at.uri_key) at.entry1
          at.uri)
        (text at.version_key) at.entry2 at.version

  -- For a request line of three words without spaces or zero bytes, with a method of 5 bytes and a
  -- version of 9, on a dictionary that stands for a map of fewer than 2 ^ 62 - 2 entries and has
  -- none of the three keys, whose strings differ, and if malloc gives three different unused
  -- addresses: add_request_line_to_dict succeeds with one round more than there are entries after
  -- the second addition, and leaves three entries more and the map with the three keys and the
  -- addresses of the three arrays.
  pub add_request_line_to_dict-Models :
      {f : View} (at : Addresses) (d : Dict) (fuel : ℕ) (m u v : List ℕ)
      → Word m
      → Word u
      → Word v
      → length m ≡ 5
      → length v ≡ 9
      → Models text d f
      → Fresh at d
      → Absent text at f
      → d.ht0.used + d.ht1.used + 2 ≤ fuel
      → d.ht0.used + d.ht1.used + 2 < 2 ^ 62
      → (d' : Dict) × (add_request_line_to_dict text true (suc fuel) at d (line_of m u v) ≡ ok d')
        × Models text d' (with_words at f)
        × (d'.ht0.used + d'.ht1.used ≡ d.ht0.used + d.ht1.used + 3)
  unfolding add_request_line_to_dict
  add_request_line_to_dict-Models at d fuel m u v pm pu pv five nine models fresh absent le small =
      let (d0, run0, m0, a0) =
        add_new d fuel at.entry0 at.method_key at.method models absent.none0 fresh.given0
          fresh.free0 (omega arith) (omega arith) in
      let t0 = a0.total in
      let (d1, run1, m1, a1) =
        add_new d0 fuel at.entry1 at.uri_key at.uri m0 (rw absent.other10 absent.none1) fresh.given1
          (a0.others at.entry1 fresh.ne10 ∙ fresh.free1) (omega arith) (omega arith) in
      let t1 = a1.total in
      let (d2, run2, m2, a2) =
        add_new d1 fuel at.entry2 at.version_key at.version m1
          (rw (absent.other21, absent.other20) absent.none2) fresh.given2
          (a1.others at.entry2 fresh.ne21 ∙ (a0.others at.entry2 fresh.ne20 ∙ fresh.free2))
          (omega arith) (omega arith) in
      let t2 = a2.total in
      (
        d2,
        rw (request_line-line_of m u v pm pu pv, five, nine, run0, run1, run2) refl,
        m2,
        omega arith,
      )
