-- ===== src/Prompt/Delimiters.antt =====
-- The delimiters of the user prompt occur where the program wrote them, and nowhere else.
use civic_pulse_24i3089_24i.Prelude.{
  ℕ, ◌≡◌, refl, sym, ◌∙◌, ap, inl, inr, Bool, false, none, some, [], ◌∷◌, ◌++◌, arith, ◌==◌,
  Bool-cases, any,
}
use civic_pulse_24i3089_24i.Text.{
  Str, codes, is_space, lstrip, starts_with, starts_with-eq, occurrences, occurrences-append,
}
use civic_pulse_24i3089_24i.Prompt.{match_tag, sanitize, build_user_prompt}
use civic_pulse_24i3089_24i.Prompt.Tags.{IsPunctuated, NoTag, sanitize-NoTag}

-- The delimiters that the prompt is built with.
pub data Delimiter : Type 0 where
  open_location close_location open_complaint close_complaint : Delimiter

abbrev pub delimiter_tail : Delimiter → Str
delimiter_tail open_location = codes "location>"
delimiter_tail close_location = codes "/location>"
delimiter_tail open_complaint = codes "complaint>"
delimiter_tail close_complaint = codes "/complaint>"

abbrev pub delimiter : Delimiter → Str
delimiter d = 60 ∷ delimiter_tail d

tail_flat : (d : Delimiter) → any (λ c. c == 10) (delimiter_tail d) ≡ false
tail_flat open_location = refl
tail_flat close_location = refl
tail_flat open_complaint = refl
tail_flat close_complaint = refl

tail_closed : (d : Delimiter) → any (λ c. c == 60) (delimiter_tail d) ≡ false
tail_closed open_location = refl
tail_closed close_location = refl
tail_closed open_complaint = refl
tail_closed close_complaint = refl

module _ (is_word : ℕ → Bool) (marks : IsPunctuated is_word) where
  delimiter-match :
      (d : Delimiter) (rest : Str) → match_tag is_word (delimiter d ++ rest) ≡ some rest
  unfolding match_tag is_space lstrip
  delimiter-match open_location rest = rw marks.greater
  delimiter-match close_location rest = rw marks.greater
  delimiter-match open_complaint rest = rw marks.greater
  delimiter-match close_complaint rest = rw marks.greater

  delimiter-absent :
      (d : Delimiter) (c : ℕ) (s : Str)
      → match_tag is_word (c ∷ s) ≡ none
      → starts_with (delimiter d) (c ∷ s) ≡ false
  delimiter-absent d c s h = elim (Bool-cases (starts_with (delimiter d) (c ∷ s))) [
    | inl found ↦
        let (rest, e) = starts_with-eq (delimiter d) (c ∷ s) found in
        let z : none ≡ some rest = sym h ∙ ap (match_tag is_word) e ∙ delimiter-match d rest in
        absurd (cc z)
    | inr missed ↦ missed
  ]

  occurrences_of_NoTag :
      (d : Delimiter) (s : Str) → NoTag is_word s → occurrences (delimiter d) s ≡ 0
  unfolding occurrences
  occurrences_of_NoTag d [] h = refl
  occurrences_of_NoTag d (c ∷ s) (e, h) = rw (delimiter-absent d c s e) (occurrences_of_NoTag d s h)

  occurrences-sanitize :
      (d : Delimiter) (value : Str) → occurrences (delimiter d) (sanitize is_word value) ≡ 0
  occurrences-sanitize d value =
      occurrences_of_NoTag d (sanitize is_word value) (sanitize-NoTag is_word marks value)

  abbrev after_text : Str
  after_text = codes "</complaint>\n" ++ codes "Return the JSON object now."

  abbrev after_location : Str → Str
  after_location text =
      codes "/location>\n" ++ (codes "<complaint>\n" ++ (sanitize is_word text ++ 10 ∷ after_text))

  count_text :
      (d : Delimiter) (text : Str)
      → occurrences (delimiter d) (sanitize is_word text ++ 10 ∷ after_text)
        ≡ occurrences (delimiter d) (10 ∷ after_text)
  count_text d text =
      occurrences-append 60 (delimiter_tail d) 10 (sanitize is_word text) after_text (tail_flat d)
      ∙ rw (occurrences-sanitize d text) (omega arith)

  count_location :
      (d : Delimiter) (text location : Str)
      → occurrences (delimiter d) (sanitize is_word location ++ 60 ∷ after_location text)
        ≡ occurrences (delimiter d) (60 ∷ after_location text)
  count_location d text location =
      occurrences-append 60 (delimiter_tail d) 60 (sanitize is_word location) (after_location text)
        (tail_closed d)
      ∙ rw (occurrences-sanitize d location) (omega arith)

  -- Where angle brackets, plain or softened, are no word characters, each of the four delimiters
  -- occurs exactly once in the user prompt, whatever text and location the citizen gave: a
  -- complaint cannot close its block or open another.
  pub delimiters_once :
      (d : Delimiter) (text location : Str)
      → occurrences (delimiter d) (build_user_prompt is_word text location) ≡ 1
  unfolding build_user_prompt occurrences starts_with
  delimiters_once open_location text location =
      rw (count_location open_location text location) (rw (count_text open_location text))
  delimiters_once close_location text location =
      rw (count_location close_location text location) (rw (count_text close_location text))
  delimiters_once open_complaint text location =
      rw (count_location open_complaint text location) (rw (count_text open_complaint text))
  delimiters_once close_complaint text location =
      rw (count_location close_complaint text location) (rw (count_text close_complaint text))
