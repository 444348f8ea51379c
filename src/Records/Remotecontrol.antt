-- ===== src/Records/Remotecontrol.antt =====
-- The records of libkieker/common/record/remotecontrol: each struct, its serializer, and the fields that the
-- struct declares, in their order.
use kieker_lang_pack_c.Common.{ℕ, List, [], ◌∷◌, ◌≡◌, refl}
use kieker_lang_pack_c.Word.{CString}
use kieker_lang_pack_c.State.{Ptr}
use kieker_lang_pack_c.Exec.{Exec, pure, ◌>>=◌, ◌+=◌}
use kieker_lang_pack_c.Serialize.{serialize_string}
use kieker_lang_pack_c.Fields.{Field, text, serialize_fields}

pub record ActivationEvent : Type 0 where
  pub pattern : CString

unfoldable pub activation_event_serialize : Ptr → ℕ → ActivationEvent → Exec ℕ
activation_event_serialize buffer offset value = do
  let position = offset
  position ← position += serialize_string buffer position value.pattern
  pure position

abbrev pub activation_event_fields : ActivationEvent → List Field
activation_event_fields value = text value.pattern ∷ []

pub activation_event_serialize-fields :
    (buffer : Ptr) (offset : ℕ) (value : ActivationEvent)
    → activation_event_serialize buffer offset value
      ≡ serialize_fields buffer offset (activation_event_fields value)
unfolding activation_event_serialize serialize_fields
activation_event_serialize-fields buffer offset value = refl

pub record ActivationParameterEvent : Type 0 where
  pub pattern : CString
  pub name : CString
  pub values : CString

unfoldable pub activation_parameter_event_serialize : Ptr → ℕ → ActivationParameterEvent → Exec ℕ
activation_parameter_event_serialize buffer offset value = do
  let position = offset
  position ← position += serialize_string buffer position value.pattern
  position ← position += serialize_string buffer position value.name
  position ← position += serialize_string buffer position value.values
  pure position

abbrev pub activation_parameter_event_fields : ActivationParameterEvent → List Field
activation_parameter_event_fields value =
    text value.pattern ∷ text value.name ∷ text value.values ∷ []

pub activation_parameter_event_serialize-fields :
    (buffer : Ptr) (offset : ℕ) (value : ActivationParameterEvent)
    → activation_parameter_event_serialize buffer offset value
      ≡ serialize_fields buffer offset (activation_parameter_event_fields value)
unfolding activation_parameter_event_serialize serialize_fields
activation_parameter_event_serialize-fields buffer offset value = refl

pub record AddParameterValueEvent : Type 0 where
  pub pattern : CString
  pub name : CString
  pub value : CString

unfoldable pub add_parameter_value_event_serialize : Ptr → ℕ → AddParameterValueEvent → Exec ℕ
add_parameter_value_event_serialize buffer offset value = do
  let position = offset
  position ← position += serialize_string buffer position value.pattern
  position ← position += serialize_string buffer position value.name
  position ← position += serialize_string buffer position value.value
  pure position

abbrev pub add_parameter_value_event_fields : AddParameterValueEvent → List Field
add_parameter_value_event_fields value =
    text value.pattern ∷ text value.name ∷ text value.value ∷ []

pub add_parameter_value_event_serialize-fields :
    (buffer : Ptr) (offset : ℕ) (value : AddParameterValueEvent)
    → add_parameter_value_event_serialize buffer offset value
      ≡ serialize_fields buffer offset (add_parameter_value_event_fields value)
unfolding add_parameter_value_event_serialize serialize_fields
add_parameter_value_event_serialize-fields buffer offset value = refl

pub record DeactivationEvent : Type 0 where
  pub pattern : CString

unfoldable pub deactivation_event_serialize : Ptr → ℕ → DeactivationEvent → Exec ℕ
deactivation_event_serialize buffer offset value = do
  let position = offset
  position ← position += serialize_string buffer position value.pattern
  pure position

abbrev pub deactivation_event_fields : DeactivationEvent → List Field
deactivation_event_fields value = text value.pattern ∷ []

pub deactivation_event_serialize-fields :
    (buffer : Ptr) (offset : ℕ) (value : DeactivationEvent)
    → deactivation_event_serialize buffer offset value
      ≡ serialize_fields buffer offset (deactivation_event_fields value)
unfolding deactivation_event_serialize serialize_fields
deactivation_event_serialize-fields buffer offset value = refl

pub record RemoveParameterValueEvent : Type 0 where
  pub pattern : CString
  pub name : CString
  pub value : CString

unfoldable pub remove_parameter_value_event_serialize : Ptr → ℕ → RemoveParameterValueEvent → Exec ℕ
remove_parameter_value_event_serialize buffer offset value = do
  let position = offset
  position ← position += serialize_string buffer position value.pattern
  position ← position += serialize_string buffer position value.name
  position ← position += serialize_string buffer position value.value
  pure position

abbrev pub remove_parameter_value_event_fields : RemoveParameterValueEvent → List Field
remove_parameter_value_event_fields value =
    text value.pattern ∷ text value.name ∷ text value.value ∷ []

pub remove_parameter_value_event_serialize-fields :
    (buffer : Ptr) (offset : ℕ) (value : RemoveParameterValueEvent)
    → remove_parameter_value_event_serialize buffer offset value
      ≡ serialize_fields buffer offset (remove_parameter_value_event_fields value)
unfolding remove_parameter_value_event_serialize serialize_fields
remove_parameter_value_event_serialize-fields buffer offset value = refl

pub record UpdateParameterEvent : Type 0 where
  pub pattern : CString
  pub name : CString
  pub values : CString

unfoldable pub update_parameter_event_serialize : Ptr → ℕ → UpdateParameterEvent → Exec ℕ
update_parameter_event_serialize buffer offset value = do
  let position = offset
  position ← position += serialize_string buffer position value.pattern
  position ← position += serialize_string buffer position value.name
  position ← position += serialize_string buffer position value.values
  pure position

abbrev pub update_parameter_event_fields : UpdateParameterEvent → List Field
update_parameter_event_fields value = text value.pattern ∷ text value.name ∷ text value.values ∷ []

pub update_parameter_event_serialize-fields :
    (buffer : Ptr) (offset : ℕ) (value : UpdateParameterEvent)
    → update_parameter_event_serialize buffer offset value
      ≡ serialize_fields buffer offset (update_parameter_event_fields value)
unfolding update_parameter_event_serialize serialize_fields
update_parameter_event_serialize-fields buffer offset value = refl
