-- ===== src/Lookup/Keys.antt =====
-- The table of strings refines the registry: looking a string up returns its number, and announces
-- it first if it is new.
use kieker_lang_pack_c.Common.{
  ℕ, ◌+◌, ◌-◌, ◌<◌, ◌≤◌, Option, none, some, List, [], ◌∷◌, ◌++◌, length, ◌≡◌, ◌≢◌, arith, inl, inr,
  Option-cases, set, lt→ltb, length-append,
}
use kieker_lang_pack_c.Word.{CString}
use kieker_lang_pack_c.Registry.{Registry, index_from, number_of, register}
use kieker_lang_pack_c.State.{Ptr, State, Write}
use kieker_lang_pack_c.Exec.{◌>>=◌, ◌>>◌, the}
use kieker_lang_pack_c.Exec.Returns.{Runs}
use kieker_lang_pack_c.Effect.{
  Ready, Wrote, max_string, Wrote-refl, Wrote-set_lookup, Wrote-from_lookup,
}
use kieker_lang_pack_c.Controller.Announce.{announcement}
use kieker_lang_pack_c.Controller.Effects.{send_string-Wrote}
use kieker_lang_pack_c.Lookup.{
  reserve, store_value, string_list_add_value, found_or_add, find_key_by_string,
}
use kieker_lang_pack_c.Lookup.Find.{find_loop-Represents}
use kieker_lang_pack_c.Lookup.Grow.{reserve-Represents, stored-Represents}

abbrev pub announce_new : Option ℕ → ℕ → ℕ → CString → List Write
announce_new none socket n string = announcement socket n string ∷ []
announce_new (some i) socket n string = []

-- What is sent when `string` is looked up.
unfoldable pub announcements : ℕ → Registry → CString → List Write
announcements socket reg string = announce_new (index_from 0 reg string) socket (length reg) string

module _ {b : Ptr} {xs : List ℕ} {reg : Registry} {s : State} (string : CString)
    (ready : Ready reg s) (holds : s.heap.blocks b ≡ some xs)
    (apart : b ≢ s.controller.string_buffer) (fits : length string ≤ max_string) where
  -- Storing after the announcement, in a state whose table has a free slot.
  store_value-Wrote :
      {news : List Write} {n : ℕ} {t : State}
      → Wrote b xs reg news n s t
      → t.lookup.table_top < length t.lookup.string_list
      → Runs (store_value string) t tt (Wrote b xs (reg ++ string ∷ []) news n s)
  unfolding store_value
  store_value-Wrote {t} w room = record {
    final = record t {
      lookup = record (t.lookup) {
        string_list = set t.lookup.string_list t.lookup.table_top (some string);
        table_top = t.lookup.table_top + 1;
      };
    };
    run = rw (lt→ltb _ _ room);
    post = Wrote-set_lookup _ w (stored-Represents string w.ready.table room);
  }

  -- Adding a string announces it under the next number.
  pub string_list_add_value-Wrote : Runs (string_list_add_value string) s tt (
      Wrote b xs
        (reg ++ string ∷ [])
        (announcement s.controller.socket (length reg) string ∷ [])
        0
        s)
  unfolding string_list_add_value
  string_list_add_value-Wrote =
      let (table, room) = reserve-Represents ready.table in
      let l = reserve s.lookup in
      let ready' : Ready reg (record s { lookup = l }) = record {
        table = table;
        string_block = ready.string_block;
        string_holds = ready.string_holds;
        string_room = ready.string_room;
      } in
      let sent = send_string-Wrote string l.table_top ready' holds apart fits in
      let (w, same) = sent.post in
      let stored = store_value-Wrote (Wrote-from_lookup l w) (rw same room) in
      let at_top : announcement s.controller.socket l.table_top string
          ≡ announcement s.controller.socket (length reg) string =
        rw table.top in
      record {
        final = stored.final;
        run = rw (sent.run, ◌>>=◌, ◌>>◌) stored.run;
        post = rw (← at_top) stored.post;
      }

  -- On a table that holds a registry of strings, looking up a string of at most 8180 bytes
  -- returns its number in the registry; a new string becomes the last of the registry and is
  -- announced under that number in one call of `write`, and for a known one nothing is sent.
  pub find_key_by_string-Wrote :
      Runs
        (find_key_by_string string)
        s
        (number_of reg string)
        (Wrote b xs (register reg string) (announcements s.controller.socket reg string) 0 s)
  unfolding find_key_by_string found_or_add number_of register announcements
  find_key_by_string-Wrote = elim (Option-cases (index_from 0 reg string)) [
    | inl new ↦
        let added = string_list_add_value-Wrote in
        let top : added.final.lookup.table_top - 1 ≡ length reg =
          omega (arith, added.post.ready.table.top, length-append reg (string ∷ [])) in
        rw new (record {
          final = added.final;
          run =
              rw (find_loop-Represents string ready.table, the, ◌>>=◌)
                (rw (new, found_or_add) (rw (added.run, ◌>>=◌, ◌>>◌) (rw top)));
          post = added.post;
        })
    | inr (n, known) ↦ rw known (record {
      final = s;
      run = rw (find_loop-Represents string ready.table, the, ◌>>=◌) (rw (known, found_or_add));
      post = Wrote-refl ready holds;
    })
  ]
