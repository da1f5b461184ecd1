-- ===== src/Json/Messages.antt =====
-- The messages of src/messages/messages.c that hold an id, or a number and a text. The `message` that a text is copied
-- to is a buffer of the caller, of `size` bytes.
use ccips_cfgipsec.Base.{
  ℕ, ◌^◌, ◌≤◌, ◌<◌, ◌≡◌, refl, ◌∙◌, arith, Option, some, List, [], ◌∷◌, Run, ok, ◌>>=◌, >>=-ok,
}
use ccips_cfgipsec.Base.Lists.{length, All}
use ccips_cfgipsec.Text.{Text, codes, str_eq}
use ccips_cfgipsec.Json.{Value, string, number, Parson, get_int, copy_string, set_values}
use ccips_cfgipsec.Json.Fields.{
  KeptField, lookup, set_values-lookup, copy_string-found, get_int-found,
}

pub record DeleteConfigMsg : Type 0 where
  pub entries_id : ℕ

pub record AlertStateMsg : Type 0 where
  pub entries_id : ℕ
  pub message : Text

pub record OpResultMsg : Type 0 where
  pub success : ℕ
  pub message : Text

pub record RequestEntriesMsg : Type 0 where
  pub entries_id : ℕ

module _ (parson : Parson) where
  unfoldable pub encode_delete_config_msg : DeleteConfigMsg → parson.Object
  encode_delete_config_msg msg =
      set_values parson (parson.init_object) ((codes "entries_id", number (msg.entries_id)) ∷ [])

  unfoldable pub decode_delete_config_msg : parson.Object → Run DeleteConfigMsg
  decode_delete_config_msg schema = do
    entries_id ← get_int parson schema (codes "entries_id")
    ok (record { entries_id = entries_id })

  unfoldable pub encode_alert_state_msg : AlertStateMsg → parson.Object
  encode_alert_state_msg msg =
      set_values parson (parson.init_object) (
        (codes "entries_id", number (msg.entries_id))
        ∷ (codes "message", string (msg.message))
        ∷ [])

  unfoldable pub decode_alert_state_msg : ℕ → parson.Object → Run AlertStateMsg
  decode_alert_state_msg size schema = do
    entries_id ← get_int parson schema (codes "entries_id")
    message ← copy_string parson size schema (codes "message")
    ok (record { entries_id = entries_id; message = message })

  unfoldable pub encode_op_result_msg : OpResultMsg → parson.Object
  encode_op_result_msg msg =
      set_values parson (parson.init_object)
        ((codes "success", number (msg.success)) ∷ (codes "message", string (msg.message)) ∷ [])

  unfoldable pub decode_op_result_msg : ℕ → parson.Object → Run OpResultMsg
  decode_op_result_msg size schema = do
    success ← get_int parson schema (codes "success")
    message ← copy_string parson size schema (codes "message")
    ok (record { success = success; message = message })

  unfoldable pub encode_request_entries_msg : RequestEntriesMsg → parson.Object
  encode_request_entries_msg msg =
      set_values parson (parson.init_object) ((codes "entries_id", number (msg.entries_id)) ∷ [])

  unfoldable pub decode_request_entries_msg : parson.Object → Run RequestEntriesMsg
  decode_request_entries_msg schema = do
    entries_id ← get_int parson schema (codes "entries_id")
    ok (record { entries_id = entries_id })

  -- A small number that was set is the one read.
  get_int-set :
      (fields : List (Text × Value)) (key : Text) (n : ℕ)
      → All (KeptField parson) fields
      → ((before : Option Value) → lookup fields key before ≡ some (number n))
      → n < 2 ^ 31
      → get_int parson (set_values parson (parson.init_object) fields) key ≡ ok n
  get_int-set fields key n kept is_field small =
      get_int-found parson (set_values parson (parson.init_object) fields) key n
        (set_values-lookup parson fields (parson.init_object) key kept ∙ is_field _) small

  copy_string-set :
      (fields : List (Text × Value)) (key : Text) (size : ℕ) (s : Text)
      → All (KeptField parson) fields
      → ((before : Option Value) → lookup fields key before ≡ some (string s))
      → length s < size
      → copy_string parson size (set_values parson (parson.init_object) fields) key ≡ ok s
  copy_string-set fields key size s kept is_field short =
      copy_string-found parson (set_values parson (parson.init_object) fields) key size s
        (set_values-lookup parson fields (parson.init_object) key kept ∙ is_field _) short

  decode-encode_delete_config_msg :
      (msg : DeleteConfigMsg)
      → msg.entries_id < 2 ^ 31
      → decode_delete_config_msg (encode_delete_config_msg msg) ≡ ok msg
  unfolding decode_delete_config_msg encode_delete_config_msg lookup str_eq
  decode-encode_delete_config_msg msg small =
      let kept : msg.entries_id ≤ 2 ^ 53 = omega arith in
      >>=-ok _
        (get_int-set _ (codes "entries_id") (msg.entries_id) (kept, tt) (λ before. refl) small) refl

  decode-encode_request_entries_msg :
      (msg : RequestEntriesMsg)
      → msg.entries_id < 2 ^ 31
      → decode_request_entries_msg (encode_request_entries_msg msg) ≡ ok msg
  unfolding decode_request_entries_msg encode_request_entries_msg lookup str_eq
  decode-encode_request_entries_msg msg small =
      let kept : msg.entries_id ≤ 2 ^ 53 = omega arith in
      >>=-ok _
        (get_int-set _ (codes "entries_id") (msg.entries_id) (kept, tt) (λ before. refl) small) refl

  -- An alert with a text of UTF-8 that fits in the buffer, and an id that an `int` holds, is read as it was.
  pub decode-encode_alert_state_msg :
      (size : ℕ) (msg : AlertStateMsg)
      → msg.entries_id < 2 ^ 31
      → parson.IsUtf8 (msg.message)
      → length (msg.message) < size
      → decode_alert_state_msg size (encode_alert_state_msg msg) ≡ ok msg
  unfolding decode_alert_state_msg encode_alert_state_msg lookup str_eq
  decode-encode_alert_state_msg size msg small utf8 short =
      let kept : msg.entries_id ≤ 2 ^ 53 = omega arith in
      >>=-ok _
        (get_int-set _ (codes "entries_id") (msg.entries_id) (kept, (utf8, tt)) (λ before. refl)
          small)
        (>>=-ok _
          (copy_string-set _ (codes "message") size (msg.message) (kept, (utf8, tt))
            (λ before. refl) short)
          refl)

  decode-encode_op_result_msg :
      (size : ℕ) (msg : OpResultMsg)
      → msg.success < 2 ^ 31
      → parson.IsUtf8 (msg.message)
      → length (msg.message) < size
      → decode_op_result_msg size (encode_op_result_msg msg) ≡ ok msg
  unfolding decode_op_result_msg encode_op_result_msg lookup str_eq
  decode-encode_op_result_msg size msg small utf8 short =
      let kept : msg.success ≤ 2 ^ 53 = omega arith in
      >>=-ok _
        (get_int-set _ (codes "success") (msg.success) (kept, (utf8, tt)) (λ before. refl) small)
        (>>=-ok _
          (copy_string-set _ (codes "message") size (msg.message) (kept, (utf8, tt))
            (λ before. refl) short)
          refl)
