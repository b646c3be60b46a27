-- ===== src/Webhook/Listed.antt =====
-- internal/delivery/webhook/store.go: the file of records against the records in memory, and a line
-- that is too long.
use text.Mathlib.TextLemmas.{nil-append, cons-append, append_assoc, append-nil}
use mathlib.Core.List.{append-nil as append-nothing, append_assoc as append_twice}
use cova.Base.{
  ℕ, suc, ◌<◌, String, ◌+s◌, ◌≡◌, refl, sym, ap, ◌∙◌, Bool, Bool-cases, true, false, ◌||◌, Option,
  none, some, ◌⊎◌, inl, inr, List, [], ◌∷◌, ◌++◌, All, leb, ◌=s◌, is_empty, trim_space, arith,
}
use cova.Base.Bytes.{split, byte_length, before_suffix, value_or}
use cova.Base.Split.{lacks, split-at}
use cova.Webhook.Dispatcher.{DeliveryRecord}
use cova.Webhook.Store.{
  MemoryStore, write_memory, of_job, unless_canceled, list_memory, append_line, opened, write_line,
  lines_of, drop_return, keep_record, read_line, scan_lines, list_file, list_lines,
}

-- The lines are those of the records.
unfoldable pub Each :
    (DeliveryRecord → String → Type 0) → List DeliveryRecord → List String → Type 0
Each P [] [] = Unit
Each P [] (line ∷ lines) = ⊥
Each P (rec ∷ records) [] = ⊥
Each P (rec ∷ records) (line ∷ lines) = P rec line × Each P records lines

-- One of the lines is too long for the scanner.
unfoldable pub is_oversized : List String → Bool
is_oversized [] = false
is_oversized (line ∷ lines) = leb 65536 (byte_length line) || is_oversized lines

unfoldable pub is_listed : String ⊎ List DeliveryRecord → Bool
is_listed (inl e) = false
is_listed (inr records) = true

canceled_or_not :
    (e : Option String) (listed : String ⊎ List DeliveryRecord)
    → is_listed listed ≡ false
    → is_listed (unless_canceled e listed) ≡ false
unfolding unless_canceled is_listed
canceled_or_not none listed h = h
canceled_or_not (some e) listed h = refl

-- Lines in a file, each ended by a line feed.
unfoldable text_of : List String → String
text_of [] = ""
text_of (line ∷ lines) = (line +s "\n") +s text_of lines

-- The parts of a text that is ended by a line feed and goes on.
split-line :
    (line rest : String)
    → lacks 10 line ≡ true
    → split 10 ((line +s "\n") +s rest) ≡ line ∷ split 10 rest
split-line line rest h =
    rw (append_assoc line "\n" rest, cons-append "\n" "" rest, nil-append rest)
      (split-at 10 line "\n" rest h refl)

split-text_of :
    (lines : List String)
    → All (λ line. lacks 10 line ≡ true) lines
    → split 10 (text_of lines) ≡ lines ++ ("" ∷ [])
unfolding text_of split
split-text_of [] h = refl
split-text_of (line ∷ lines) h =
    unfold text_of in
    split-line line (text_of lines) h.0 ∙ ap (λ parts. line ∷ parts) (split-text_of lines h.1)

lines_of-append : (lines : List String) → lines_of (lines ++ ("" ∷ [])) ≡ lines
unfolding lines_of is_empty
lines_of-append [] = refl
lines_of-append (line ∷ []) = refl
lines_of-append (line ∷ next ∷ lines) = ap (λ parts. line ∷ parts) (lines_of-append (next ∷ lines))

lines_of-text_of :
    (lines : List String)
    → All (λ line. lacks 10 line ≡ true) lines
    → lines_of (split 10 (text_of lines)) ≡ lines
lines_of-text_of lines h = ap lines_of (split-text_of lines h) ∙ lines_of-append lines

unfoldable pub write_all : List DeliveryRecord → MemoryStore → MemoryStore
unfolding write_memory
write_all [] s = s
write_all (rec ∷ records) s = write_all records (write_memory rec s)

write_all-append :
    (records : List DeliveryRecord) (s : MemoryStore)
    → (write_all records s).records ≡ s.records ++ records
unfolding write_all write_memory
write_all-append [] s = sym (append-nothing s.records)
write_all-append (rec ∷ records) s =
    write_all-append records (write_memory rec s) ∙ append_twice s.records (rec ∷ []) records

module _ (encode : DeliveryRecord → Option String) where
  -- The record is encoded as this line.
  pub record IsEncoded (rec : DeliveryRecord) (line : String) : Type 0 where
    pub encoded : encode rec ≡ some line
    pub whole : lacks 10 line ≡ true

  -- The records one after another, into a file and into memory.
  unfoldable pub write_file : List DeliveryRecord → Option String → Option String
  unfolding write_line
  write_file [] file = file
  write_file (rec ∷ records) file = write_file records (write_line encode none rec file).0

  whole_lines :
      (records : List DeliveryRecord) (lines : List String)
      → Each IsEncoded records lines
      → All (λ line. lacks 10 line ≡ true) lines
  unfolding Each
  whole_lines [] [] h = tt
  whole_lines [] (line ∷ lines) h = elim h [ ]
  whole_lines (rec ∷ records) [] h = elim h [ ]
  whole_lines (rec ∷ records) (line ∷ lines) h = (h.0.whole, whole_lines records lines h.1)

  write_file-text_of :
      (records : List DeliveryRecord) (lines : List String) (text : String)
      → Each IsEncoded records lines
      → write_file records (some text) ≡ some (text +s text_of lines)
  unfolding Each write_file write_line append_line opened text_of
  write_file-text_of [] [] text h = ap (λ t. some t) (sym (append-nil text))
  write_file-text_of [] (line ∷ lines) text h = elim h [ ]
  write_file-text_of (rec ∷ records) [] text h = elim h [ ]
  write_file-text_of (rec ∷ records) (line ∷ lines) text h =
      rw
        (
          h.0.encoded,
          write_file-text_of records lines ((text +s line) +s "\n") h.1,
          append_assoc text line "\n",
          append_assoc text (line +s "\n") (text_of lines),
        )
        refl

  -- The first record makes the file.
  started_file :
      (records : List DeliveryRecord) (lines : List String) (rec : DeliveryRecord) (line : String)
      → Each IsEncoded (rec ∷ records) (line ∷ lines)
      → write_file (rec ∷ records) none ≡ some (text_of (line ∷ lines))
  started_file records lines rec line h =
      unfold write_file write_line opened in
      write_file-text_of (rec ∷ records) (line ∷ lines) "" h ∙ ap (λ t. some t) (nil-append _)

module _ (encode : DeliveryRecord → Option String) (decode : String → Option DeliveryRecord) where
  -- The line has fewer than 65536 bytes and is read back as the record.
  pub record IsLine (rec : DeliveryRecord) (line : String) : Type 0 where
    pub encoded : IsEncoded encode rec line
    pub filled : is_empty line ≡ false
    pub unreturned : before_suffix "\r" line ≡ none
    pub short : byte_length line < 65536
    pub decoded : decode line ≡ some rec

  Each-IsEncoded :
      (records : List DeliveryRecord) (lines : List String)
      → Each IsLine records lines
      → Each (IsEncoded encode) records lines
  unfolding Each
  Each-IsEncoded [] [] h = tt
  Each-IsEncoded [] (line ∷ lines) h = elim h [ ]
  Each-IsEncoded (rec ∷ records) [] h = elim h [ ]
  Each-IsEncoded (rec ∷ records) (line ∷ lines) h = (h.0.encoded, Each-IsEncoded records lines h.1)

  scan_lines-of_job :
      (ctx : ℕ → Option String) (n : ℕ) (job_id : String) (records : List DeliveryRecord)
      (lines : List String) (out : List DeliveryRecord)
      → ((m : ℕ) → ctx m ≡ none)
      → Each IsLine records lines
      → scan_lines decode ctx n job_id lines out ≡ inr (out ++ of_job job_id records)
  unfolding Each scan_lines of_job read_line keep_record drop_return value_or unless_canceled
  scan_lines-of_job ctx n job_id [] [] out live h = ap (λ r. inr r) (sym (append-nothing out))
  scan_lines-of_job ctx n job_id [] (line ∷ lines) out live h = elim h [ ]
  scan_lines-of_job ctx n job_id (rec ∷ records) [] out live h = elim h [ ]
  scan_lines-of_job ctx n job_id (rec ∷ records) (line ∷ lines) out live h =
      let fits : leb 65536 (byte_length line) ≡ false = ground (arith, h.0.short) in
      rw (fits, live n, h.0.unreturned, h.0.filled, h.0.decoded)
        (elim (Bool-cases (rec.job_id =s job_id)) [
          | inl e ↦ rw e (
              scan_lines-of_job ctx (suc n) job_id records lines (out ++ (rec ∷ [])) live h.1
              ∙ ap (λ r. inr r) (append_twice out (rec ∷ []) (of_job job_id records)))
          | inr e ↦ rw e (scan_lines-of_job ctx (suc n) job_id records lines out live h.1)
        ])

  -- After the same records have been written, the store in a file lists for every job what the store
  -- in memory lists, if no call is canceled and each record is encoded as one line that is not empty,
  -- does not end with a carriage return, has fewer than 65536 bytes and is read back as the record.
  pub file_lists_memory :
      (records : List DeliveryRecord) (lines : List String) (ctx : ℕ → Option String)
      (job_id : String)
      → ((m : ℕ) → ctx m ≡ none)
      → Each IsLine records lines
      → list_lines decode ctx none job_id (write_file encode records none)
        ≡ list_memory ctx job_id (write_all records (record { records = [] }))
  unfolding list_lines list_memory list_file unless_canceled Each
  file_lists_memory [] [] ctx job_id live h =
      rw (live 0) (unfold write_file write_all of_job in refl)
  file_lists_memory [] (line ∷ lines) ctx job_id live h = elim h [ ]
  file_lists_memory (rec ∷ records) [] ctx job_id live h = elim h [ ]
  file_lists_memory (rec ∷ records) (line ∷ lines) ctx job_id live h =
      let plain = Each-IsEncoded (rec ∷ records) (line ∷ lines) h in
      rw
        (
          live 0,
          started_file encode records lines rec line plain,
          lines_of-text_of (line ∷ lines) (whole_lines encode (rec ∷ records) (line ∷ lines) plain),
          write_all-append (rec ∷ records) (record { records = [] }),
        )
        (scan_lines-of_job ctx 1 (trim_space job_id) (rec ∷ records) (line ∷ lines) [] live h)

  scan_lines_oversized :
      (ctx : ℕ → Option String) (n : ℕ) (job_id : String) (lines : List String)
      (out : List DeliveryRecord)
      → is_oversized lines ≡ true
      → is_listed (scan_lines decode ctx n job_id lines out) ≡ false
  unfolding scan_lines is_oversized is_listed
  scan_lines_oversized ctx n job_id [] out h = cc h
  scan_lines_oversized ctx n job_id (line ∷ lines) out h =
      elim (Bool-cases (leb 65536 (byte_length line))) [
        | inl e ↦ rw e refl
        | inr e ↦ rw e (
            canceled_or_not (ctx n) _ (
              scan_lines_oversized ctx (suc n) job_id lines _
                (sym (ap (λ b. b || is_oversized lines) e) ∙ h)))
      ]

  -- Once a record is written whose line has 65536 bytes or more, the store in a file lists nothing for
  -- any job: every call is an error, whatever else is written before and after it, if each record is
  -- encoded as one line.
  pub oversized_unlistable :
      (records : List DeliveryRecord) (lines : List String) (ctx : ℕ → Option String)
      (open_error : Option String) (job_id : String)
      → Each (IsEncoded encode) records lines
      → is_oversized lines ≡ true
      → is_listed (list_lines decode ctx open_error job_id (write_file encode records none)) ≡ false
  unfolding list_lines list_file is_listed Each
  oversized_unlistable records [] ctx open_error job_id h over = unfold is_oversized in cc over
  oversized_unlistable [] (line ∷ lines) ctx open_error job_id h over = elim h [ ]
  oversized_unlistable (rec ∷ records) (line ∷ lines) ctx none job_id h over =
      canceled_or_not (ctx 0) _ (
        rw
          (
            started_file encode records lines rec line h,
            lines_of-text_of (line ∷ lines) (whole_lines encode (rec ∷ records) (line ∷ lines) h),
          )
          (scan_lines_oversized ctx 1 (trim_space job_id) (line ∷ lines) [] over))
  oversized_unlistable (rec ∷ records) (line ∷ lines) ctx (some e) job_id h over =
      canceled_or_not (ctx 0) (inl e) refl
