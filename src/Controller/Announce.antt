-- ===== src/Controller/Announce.antt =====
-- `kieker_controller_send_string` writes one announcement of a string: -1, its number, its length
-- and its bytes.
use kieker_lang_pack_c.Common.{
  ℕ, ◌+◌, ◌≤◌, some, List, [], ◌∷◌, ◌++◌, length, length-append, ◌≡◌, arith, splice, slice,
  splice-splice, slice-splice, length-splice, ◌∙◌, ◌-◌, ◌%◌, ◌^◌, take, take-append, append-nil,
  length-take, replicate, length-replicate, refl, ap, sym,
}
use kieker_lang_pack_c.Word.{CString, minus_one, sign_extend}
use kieker_lang_pack_c.Word.Bytes.{be_bytes, length-be_bytes_4}
use kieker_lang_pack_c.State.{State, Write}
use kieker_lang_pack_c.Exec.{set_block, ◌>>=◌, ◌>>◌}
use kieker_lang_pack_c.Exec.Returns.{memcpy_runs, int32_runs, write_runs, update_self}
use kieker_lang_pack_c.Controller.{padded, string_sent, send_string}

-- The bytes of an announcement, and the call of `write` that hands them over.
abbrev pub announcement_bytes : ℕ → CString → List ℕ
announcement_bytes id string =
    be_bytes 4 minus_one ++ (be_bytes 4 id ++ (be_bytes 4 (length string) ++ string))

abbrev pub announcement : ℕ → ℕ → CString → Write
announcement socket id string = record { socket = socket; bytes = announcement_bytes id string }

-- `strncpy` writes as many bytes as it is told.
pub length-padded : (n : ℕ) (string : CString) → length (padded n string) ≡ n
length-padded n string = omega (
  arith,
  length-append (take n string) (replicate (n - length string) 0),
  length-take n string,
  length-replicate {A = ℕ} (n - length string) 0,
)

padded-length : (string : CString) → padded (length string) string ≡ string
padded-length string =
    let none_left : length string - length string ≡ 0 = omega arith in
    rw none_left (
      ap (λ bs. take (length string) bs ++ []) (sym (append-nil string))
      ∙ append-nil _
      ∙ take-append string [] (length string) refl)

module _ (string : CString) (id : ℕ) (block : List ℕ) where
  bytes_length : length (announcement_bytes id string) ≡ 12 + length string
  bytes_length =
      rw
        (
          length-append (be_bytes 4 minus_one),
          length-append (be_bytes 4 id),
          length-append (be_bytes 4 (length string)),
          length-be_bytes_4,
          length-be_bytes_4,
          length-be_bytes_4,
        )
        (omega arith)

  -- The string buffer after the three numbers and the string are written to it.
  unfoldable pub filled : List ℕ
  filled =
      splice
        (splice (splice (splice block 0 (be_bytes 4 minus_one)) 4 (be_bytes 4 id)) 8
          (be_bytes 4 (length string)))
        12 string

  -- The four writes are one.
  filled_lem : filled ≡ splice block 0 (announcement_bytes id string)
  unfolding filled
  filled_lem =
      splice-splice _ 8 12 (be_bytes 4 (length string)) string
        (omega (arith, length-be_bytes_4 (length string)))
      ∙ splice-splice _ 4 8 (be_bytes 4 id) _ (omega (arith, length-be_bytes_4 id))
      ∙ splice-splice block 0 4 (be_bytes 4 minus_one) _
          (omega (arith, length-be_bytes_4 minus_one))

  slice-filled :
      12 + length string ≤ length block
      → slice filled 0 (length string + 4 + 4 + 4) ≡ announcement_bytes id string
  slice-filled fits =
      rw filled_lem (slice-splice block 0 _ _ (omega (arith, bytes_length)) (omega arith))

module _ (string : CString) (id : ℕ) (block : List ℕ) (s : State) where
  -- The state in which `write` has been called.
  unfoldable pub announced : State
  announced =
      let p = s.controller.string_buffer in
      let b1 = splice block 0 (be_bytes 4 minus_one) in
      let b2 = splice b1 4 (be_bytes 4 id) in
      let b3 = splice b2 8 (be_bytes 4 (length string)) in
      let s1 = set_block p (some b1) s in
      let s2 = set_block p (some b2) s1 in
      let s3 = set_block p (some b3) s2 in
      let s4 = set_block p (some (splice b3 12 string)) s3 in
      record s4 {
        world = record (s.world) {
          writes = s.world.writes ++ announcement s.controller.socket id string ∷ [];
        };
      }

  module _ (here : s.heap.blocks s.controller.string_buffer ≡ some block) where
    pub send_string_run :
        12 + length string ≤ length block
        → length string ≤ 8180
        → send_string string id s
          ≡ string_sent (s.world.write_errno (length s.world.writes)) announced
    unfolding send_string announced filled sign_extend
    send_string_run fits short =
        let small : length string % 2 ^ 32 ≡ length string = omega (arith, short) in
        let extended : sign_extend (length string) ≡ length string = ground (arith, short) in
        let copied = padded-length string in
        let handed : sign_extend (length string + 4 + 4 + 4) ≡ length string + 4 + 4 + 4 =
          ground (arith, short) in
        let p = s.controller.string_buffer in
        let b1 = splice block 0 (be_bytes 4 minus_one) in
        let b2 = splice b1 4 (be_bytes 4 id) in
        let b3 = splice b2 8 (be_bytes 4 (length string)) in
        let s1 = set_block p (some b1) s in
        let s2 = set_block p (some b2) s1 in
        let s3 = set_block p (some b3) s2 in
        let l1 : length b1 ≡ length block = length-splice block 0 _ in
        let l2 : length b2 ≡ length block = length-splice b1 4 _ ∙ l1 in
        let l3 : length b3 ≡ length block = length-splice b2 8 _ ∙ l2 in
        let b4 = splice b3 12 string in
        let l4 : length b4 ≡ length block = length-splice b3 12 _ ∙ l3 in
        let s4 = set_block p (some b4) s3 in
        let e1 = int32_runs p s here 0 minus_one (omega arith) in
        let e2 = int32_runs p s1 (update_self s.heap.blocks p (some b1)) 4 id (omega arith) in
        let e3 =
          int32_runs p s2 (update_self s1.heap.blocks p (some b2)) 8 (length string)
            (omega arith) in
        let e4 =
          memcpy_runs p s3 (update_self s2.heap.blocks p (some b3)) 12 string (omega arith) in
        let e5 =
          write_runs p s4 (update_self s3.heap.blocks p (some b4)) s.controller.socket
            (length string + 4 + 4 + 4) (omega arith) in
        let sent : slice b4 0 (length string + 4 + 4 + 4) ≡ announcement_bytes id string =
          slice-filled string id block fits in
        rw (small, extended, copied, handed)
          (rw (e1, ◌>>=◌, ◌>>◌)
            (rw (e2, ◌>>=◌, ◌>>◌)
              (rw (e3, ◌>>=◌, ◌>>◌) (rw (e4, ◌>>=◌, ◌>>◌) (rw (e5, ◌>>=◌) (rw sent))))))
