-- ===== src/Webhook/Examples/Stores.antt =====
-- The stores of internal/delivery/webhook/store.go at concrete inputs.
use text.Mathlib.TextLemmas.{nil-append, cons-append}
use Prim.Native.Char.{code}
use cova.Base.{
  ℕ, zero, suc, ◌+◌, ◌^◌, ◌≡◌, refl, ap, String, ◌+s◌, true, false, ◌&&◌, [], ◌∷◌, Option, some,
  none, if◌then◌else◌, ◌=s◌, is_empty, Bool-cases, ◌==◌, not, sym, ◌∙◌, inl, inr, arith,
}
use cova.Base.Bytes.{byte_length, char_bytes, before_suffix}
use cova.Base.Split.{lacks}
use cova.Webhook.Dispatcher.{DeliveryRecord}
use cova.Webhook.Store.{list_lines, list_memory}
use cova.Webhook.Listed.{
  Each, IsLine, write_file, write_all, is_listed, is_oversized, file_lists_memory,
  oversized_unlistable,
}

abbrev small_record : DeliveryRecord
small_record = record {
  delivery_id = "d1";
  event_id = "e1";
  event_type = "done";
  job_id = "job_1";
  callback_url = "http://h";
  attempt = 1;
  max_attempts = 1;
  success = true;
  http_status = some 200;
  error = none;
  requested_at = 0;
  duration_ms = 1;
  next_retry_at = none;
  payload_hash = "";
}

abbrev encode_id : DeliveryRecord → Option String
encode_id rec = some rec.delivery_id

abbrev decode_id : String → Option DeliveryRecord
decode_id line = if line =s "d1" then some small_record else none

abbrev alive : ℕ → Option String
alive n = none

small-IsLine : IsLine encode_id decode_id small_record "d1"
unfolding lacks is_empty before_suffix byte_length char_bytes ◌=s◌
small-IsLine = record {
  encoded = record { encoded = refl; whole = refl };
  filled = refl;
  unreturned = refl;
  short = omega arith;
  decoded = refl;
}

file_lists_memory_example :
    list_lines decode_id alive none " job_1" (write_file encode_id (small_record ∷ []) none)
    ≡ list_memory alive " job_1" (write_all (small_record ∷ []) (record { records = [] }))
unfolding Each
file_lists_memory_example =
    file_lists_memory encode_id decode_id (small_record ∷ []) ("d1" ∷ []) alive " job_1" (λ m. refl)
      (small-IsLine, tt)

-- A text of 2 ^ n letters.
doubled : ℕ → String
doubled zero = "x"
doubled (suc n) = doubled n +s doubled n

byte_length-append : (s t : String) → byte_length (s +s t) ≡ byte_length s + byte_length t
unfolding byte_length
byte_length-append String.[] t = rw (nil-append t) (omega arith)
byte_length-append (String.◌∷◌ c s) t =
    rw (cons-append c s t) (omega (arith, byte_length-append s t))

lacks-append :
    (sep : ℕ) (s t : String) → lacks sep s ≡ true → lacks sep t ≡ true → lacks sep (s +s t) ≡ true
unfolding lacks
lacks-append sep String.[] t h g = rw (nil-append t) g
lacks-append sep (String.◌∷◌ c s) t h g = elim (Bool-cases (code c == sep)) [
  | inl e ↦ cc (h, ap (λ b. not b && lacks sep s) e)
  | inr e ↦
      rw (cons-append c s t, e)
        (lacks-append sep s t (sym (ap (λ b. not b && lacks sep s) e) ∙ h) g)
]

doubled-facts : (n : ℕ) → (byte_length (doubled n) ≡ 2 ^ n) × (lacks 10 (doubled n) ≡ true)
unfolding doubled byte_length char_bytes lacks
doubled-facts zero = (refl, refl)
doubled-facts (suc n) =
    let (size, plain) = doubled-facts n in
    (
      byte_length-append (doubled n) (doubled n) ∙ twice (byte_length (doubled n)) n size,
      lacks-append 10 (doubled n) (doubled n) plain plain,
    )
  where
    twice : (m n : ℕ) → m ≡ 2 ^ n → m + m ≡ 2 ^ suc n
    twice m n e = omega arith

long_line : is_oversized (doubled 16 ∷ []) ≡ true
unfolding is_oversized
long_line = let size = (doubled-facts 16).0 in rw size refl

abbrev encode_long : DeliveryRecord → Option String
encode_long rec = some (doubled 16)

oversized_unlistable_example :
    is_listed
      (list_lines decode_id alive none "job_2" (write_file encode_long (small_record ∷ []) none))
    ≡ false
unfolding Each
oversized_unlistable_example =
    oversized_unlistable encode_long decode_id (small_record ∷ []) (doubled 16 ∷ []) alive none
      "job_2" (record { encoded = refl; whole = (doubled-facts 16).1 }, tt) long_line
