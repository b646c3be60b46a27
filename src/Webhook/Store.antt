-- ===== src/Webhook/Store.antt =====
-- internal/delivery/webhook/store.go: the stores of delivery records. `encode` and `decode` are
-- json.Marshal and json.Unmarshal; a file is its text, and `none` where there is none. `ctx` answers
-- `ctx.Err()` by the number of the call. bufio.Scanner takes lines of fewer than 65536 bytes.
use cova.Base.{
  ℕ, suc, String, ◌+s◌, Option, none, some, ◌⊎◌, inl, inr, List, [], ◌∷◌, ◌++◌, if◌then◌else◌, leb,
  ◌=s◌, is_empty, trim_space,
}
use cova.Base.Bytes.{split, byte_length, before_suffix, value_or}
use cova.Webhook.Dispatcher.{DeliveryRecord}

-- `MemoryStore`
pub record MemoryStore : Type 0 where
  pub records : List DeliveryRecord

unfoldable pub write_memory : DeliveryRecord → MemoryStore → MemoryStore
write_memory rec s = record s { records = s.records ++ (rec ∷ []) }

-- The records of one job, in their order.
unfoldable pub of_job : String → List DeliveryRecord → List DeliveryRecord
of_job job_id [] = []
of_job job_id (rec ∷ records) =
    let rest = of_job job_id records in if rec.job_id =s job_id then rec ∷ rest else rest

unfoldable pub unless_canceled {ℓ} : {A : Type ℓ} → Option String → String ⊎ A → String ⊎ A
unless_canceled none listed = listed
unless_canceled (some e) listed = inl e

unfoldable pub list_memory :
    (ℕ → Option String) → String → MemoryStore → String ⊎ List DeliveryRecord
unfolding of_job unless_canceled
list_memory ctx job_id s = unless_canceled (ctx 0) (inr (of_job (trim_space job_id) s.records))

-- `JSONLStore.Write`: the file after it, and the error. `open_error` is that of `os.OpenFile`.
unfoldable pub append_line : Option String → String → Option String × Option String
append_line none text = (some text, some "marshal")
append_line (some encoded) text = (some ((text +s encoded) +s "\n"), none)

unfoldable pub opened : Option String → String
opened none = ""
opened (some text) = text

unfoldable pub write_line :
    (DeliveryRecord → Option String)
    → Option String
    → DeliveryRecord
    → Option String
    → Option String × Option String
unfolding append_line opened
write_line encode none rec file = append_line (encode rec) (opened file)
write_line encode (some open_error) rec file = (file, some open_error)

-- `bufio.ScanLines` on the parts between the line feeds: the last is no line where it is empty.
unfoldable pub lines_of : List String → List String
lines_of [] = []
lines_of (p ∷ []) = if is_empty p then [] else p ∷ []
lines_of (p ∷ q ∷ parts) = p ∷ lines_of (q ∷ parts)

unfoldable pub drop_return : String → String
unfolding before_suffix value_or
drop_return line = value_or line (before_suffix "\r" line)

unfoldable pub keep_record :
    String → Option DeliveryRecord → List DeliveryRecord → List DeliveryRecord
keep_record job_id none out = out
keep_record job_id (some rec) out = if rec.job_id =s job_id then out ++ (rec ∷ []) else out

-- What one line adds.
unfoldable pub read_line :
    (String → Option DeliveryRecord) → String → String → List DeliveryRecord → List DeliveryRecord
unfolding keep_record
read_line decode job_id line out =
    if is_empty line then out else keep_record job_id (decode line) out

-- The loop of `JSONLStore.ListByJobID`; a line that is too long ends the scan with an error.
unfoldable pub scan_lines :
    (String → Option DeliveryRecord)
    → (ℕ → Option String)
    → ℕ
    → String
    → List String
    → List DeliveryRecord
    → String ⊎ List DeliveryRecord
unfolding unless_canceled read_line drop_return
scan_lines decode ctx n job_id [] out = inr out
scan_lines decode ctx n job_id (line ∷ lines) out =
    let rest =
      scan_lines decode ctx (suc n) job_id lines (read_line decode job_id (drop_return line) out) in
    if leb 65536 (byte_length line)
    then inl "bufio.Scanner: token too long"
    else unless_canceled (ctx n) rest

unfoldable pub list_file :
    (String → Option DeliveryRecord)
    → (ℕ → Option String)
    → String
    → Option String
    → String ⊎ List DeliveryRecord
unfolding scan_lines lines_of split
list_file decode ctx job_id none = inr []
list_file decode ctx job_id (some text) =
    scan_lines decode ctx 1 (trim_space job_id) (lines_of (split 10 text)) []

-- `JSONLStore.ListByJobID`; `open_error` is an error of `os.Open` other than a missing file.
unfoldable pub list_lines :
    (String → Option DeliveryRecord)
    → (ℕ → Option String)
    → Option String
    → String
    → Option String
    → String ⊎ List DeliveryRecord
unfolding unless_canceled list_file
list_lines decode ctx none job_id file = unless_canceled (ctx 0) (list_file decode ctx job_id file)
list_lines decode ctx (some open_error) job_id file = unless_canceled (ctx 0) (inl open_error)
