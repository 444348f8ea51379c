-- ===== src/Collector.antt =====
-- What a collector reads from the bytes that the calls of `write` are given, one call after another,
-- without their boundaries; it gets all of them if no call fails. It knows the layouts of the three record types of the probes by their names.
pub mod Stream
pub mod Events
pub mod Sessions
pub mod Order
pub mod Process
use kieker_lang_pack_c.Common.{
  ℕ, zero, suc, ◌+◌, List, [], ◌∷◌, ◌++◌, length, take, drop, Option, none, some, if◌then◌else◌,
  ◌==◌, get_elem?, ◌-◌, ◌^◌, true, false,
}
use kieker_lang_pack_c.Word.{CString, str_eq}
use kieker_lang_pack_c.Word.Bytes.{of_be}
use kieker_lang_pack_c.State.{Write}
use kieker_lang_pack_c.Registry.{Registry}
use kieker_lang_pack_c.Fields.{Field}
use kieker_lang_pack_c.Fields.Decode.{Kind, an_int32, an_int64, a_text, kind_width, decode}
use kieker_lang_pack_c.Setup.Types.{
  trace_metadata_type, before_operation_type, after_operation_type,
}

-- The bytes of calls of `write`.
abbrev pub stream : List Write → List ℕ
stream [] = []
stream (w ∷ ws) = w.bytes ++ stream ws

-- Before each record stand the number of its type and the time of its logging.
abbrev operation_kinds : List Kind
operation_kinds = an_int32 ∷ an_int64 ∷ an_int64 ∷ an_int64 ∷ an_int32 ∷ a_text ∷ a_text ∷ []

abbrev metadata_kinds : List Kind
metadata_kinds =
    an_int32 ∷ an_int64 ∷ an_int64 ∷ an_int64 ∷ a_text ∷ a_text ∷ an_int64 ∷ an_int32 ∷ []

unfoldable pub kinds_of : Option CString → Option (List Kind)
kinds_of none = none
kinds_of (some name) =
    if str_eq name trace_metadata_type
    then some metadata_kinds
    else if str_eq name before_operation_type
    then some operation_kinds
    else if str_eq name after_operation_type
    then some operation_kinds
    else none

abbrev pub widths : List Kind → ℕ
widths [] = 0
widths (k ∷ ks) = kind_width k + widths ks

-- What has been read: the strings that are known, and the records.
abbrev pub Read : Type 0
Read = Option (Registry × List (List Field))

abbrev pub with_record : List Field → Read → Read
with_record r none = none
with_record r (some (reg, rs)) = some (reg, r ∷ rs)

-- The number of the next message, -1 for an announcement.
abbrev pub next_number : List ℕ → ℕ
next_number bytes = of_be (take 4 bytes)

-- An announcement has the number of a string, its length and its bytes. Each round reads one message.
unfoldable pub read : ℕ → Registry → List ℕ → Read
unfolding kinds_of
read rounds reg [] = some (reg, [])
read zero reg (b ∷ bytes) = none
read (suc rounds) reg (b ∷ bytes) =
    let here = b ∷ bytes in
    elim (next_number here == 2 ^ 32 - 1) [
      | true ↦
          let string = take (next_number (drop 8 here)) (drop 12 here) in
          if next_number (drop 4 here) == length reg
          then read rounds (reg ++ string ∷ []) (drop (12 + next_number (drop 8 here)) here)
          else none
      | false ↦ elim (kinds_of (get_elem? reg (next_number here))) [
        | none ↦ none
        | some ks ↦ elim (decode reg ks here) [
          | none ↦ none
          | some r ↦ with_record r (read rounds reg (drop (widths ks) here))
        ]
      ]
    ]
