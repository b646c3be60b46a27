-- ===== src/Sdk/Paths.antt =====
-- sdk/go/cova/client_gen.go: the parts of the paths that the client writes.
use cova.Base.{
  String, ◌+s◌, ◌≡◌, refl, sym, ap, ◌∙◌, Bool, Bool-cases, true, false, not, ◌&&◌, [], ◌∷◌, inl,
  inr, is_empty,
}
use cova.Base.Bytes.{cut_right, split}
use cova.Base.Split.{
  lacks, split-plain, split-at, split-part, trim_byte-append, cut_right-append, cut_right-plain,
  cut_end-filled, filled-append,
}
use text.Mathlib.TextLemmas.{nil-append, append-nil}
use cova.Openapi.{split_path}
use cova.Sdk.Calls.{job_path}

-- An id that is one part of a path.
unfoldable pub is_part : String → Bool
unfolding lacks
is_part id = not (is_empty id) && lacks 47 id

pub split_job :
    (s : String)
    → cut_right 47 s ≡ s
    → is_empty s ≡ false
    → split_path ("/v1/assistant/jobs/" +s s) ≡ "v1" ∷ "assistant" ∷ "jobs" ∷ split 47 s
unfolding split_path lacks
split_job s h e =
    rw
      (
        trim_byte-append 47 "/" "v" "1/assistant/jobs/" s refl refl h e,
        filled-append "v1/assistant/jobs/" s e,
        split-part 47 "v1" "/" "assistant/jobs/" s refl refl,
        split-part 47 "assistant" "/" "jobs/" s refl refl,
        split-part 47 "jobs" "/" "" s refl refl,
        nil-append s,
      )
      refl

-- What holds of an id that is one part.
pub part_facts : (id : String) → is_part id ≡ true → (is_empty id ≡ false) × (lacks 47 id ≡ true)
unfolding is_part
part_facts id h = elim (Bool-cases (is_empty id)) [
  | inl e ↦ cc (h, ap (λ b. not b && lacks 47 id) e)
  | inr e ↦ (e, sym (ap (λ b. not b && lacks 47 id) e) ∙ h)
]

pub short_parts :
    (id : String)
    → is_part id ≡ true
    → split_path (job_path id "") ≡ "v1" ∷ "assistant" ∷ "jobs" ∷ id ∷ []
unfolding job_path
short_parts id h =
    let facts = part_facts id h in
    rw
      (
        append-nil id,
        split_job id (cut_right-plain 47 id facts.1) facts.0,
        split-plain 47 id facts.1,
      )
      refl

ends :
    (id word : String)
    → lacks 47 word ≡ true
    → is_empty word ≡ false
    → cut_right 47 (id +s String.◌∷◌ "/" word) ≡ id +s String.◌∷◌ "/" word
unfolding cut_right is_empty
ends id word f g =
    cut_right-append 47 id (String.◌∷◌ "/" word)
      (rw (cut_right-plain 47 word f) (cut_end-filled 47 "/" word g)) refl

pub long_parts :
    (id word : String)
    → is_part id ≡ true
    → lacks 47 word ≡ true
    → is_empty word ≡ false
    → split_path (job_path id (String.◌∷◌ "/" word)) ≡ "v1" ∷ "assistant" ∷ "jobs" ∷ id ∷ word ∷ []
unfolding job_path is_empty
long_parts id word h f g =
    let facts = part_facts id h in
    rw
      (
        split_job (id +s String.◌∷◌ "/" word) (ends id word f g)
            (filled-append id (String.◌∷◌ "/" word) refl),
        split-at 47 id "/" word facts.1 refl,
        split-plain 47 word f,
      )
      refl
