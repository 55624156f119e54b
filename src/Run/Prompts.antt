-- ===== src/Run/Prompts.antt =====
-- run.go: which prompt files `lalia run` may write again.
use Prim.Native.Char.{Char}
use Prim.Native.String.{◌++◌ as append}
use Prim.Native.String.append as append_clauses
use text.Mathlib.TextLemmas.{append-nil, append_assoc}
use lalia.Prelude.{
  ◌≡◌, refl, sym, ap, ◌∙◌, String, Bool, true, false, not, Option, none, some, ◌==◌, Bool-cases,
  inl, inr, arith, if_both, subst,
}
use lalia.Text.{all_chars, trim_space}
use lalia.Text.Trim.{trim_left_by, trim_right_by}
use lalia.Run.Sections.{Replaces, upsert_copilot_section-Replaces}
use lalia.Run.{
  managed_prompt_marker, copilot_begin_marker, copilot_end_marker, is_newline, first_line,
  has_managed_first_line, ensure_trailing_newline, render_managed_prompt, render_copilot_section,
  strip_prefix, find_split, contains_text, Existing, absent, present, unreadable, written,
  written_if, write_managed_prompt_file, write_copilot_prompt_file, upsert_copilot_section, prepend,
  found, found_here, replace_tail, upsert_at,
}

-- The first line ends at the first line feed.
first_line-append :
    (s rest : String) (c : Char)
    → all_chars (λ d. not (is_newline d)) s ≡ true
    → is_newline c ≡ true
    → first_line (append s (String.◌∷◌ c rest)) ≡ s
unfolding first_line all_chars
first_line-append String.[] rest c plain feed =
    ap first_line (append_clauses.nil (String.◌∷◌ c rest)) ∙ rw feed refl
first_line-append (String.◌∷◌ d s) rest c plain feed =
    ap first_line (append_clauses.cons d s (String.◌∷◌ c rest))
    ∙ ground (arith, plain, first_line-append s rest c)

has_managed_first_line-render :
    (prompt : String) → has_managed_first_line (render_managed_prompt prompt) ≡ true
unfolding has_managed_first_line render_managed_prompt
has_managed_first_line-render prompt =
    let body : String = ensure_trailing_newline (trim_left_by is_newline prompt) in
    let first : first_line (append managed_prompt_marker (append "\n\n" body))
        ≡ managed_prompt_marker =
      ap (λ t. first_line (append managed_prompt_marker t)) (append_clauses.cons "\n" "\n" body)
      ∙ first_line-append managed_prompt_marker (append "\n" body) "\n" (unfold all_chars in refl)
          refl in
    ap (λ t. trim_space t == managed_prompt_marker) first ∙ unfold trim_space in refl

-- A managed prompt file that was written may be written again without force: the check of its first
-- line finds the marker.
pub managed-rewritable :
    (old : Existing) (prompt next text : String) (force : Bool)
    → write_managed_prompt_file true old prompt force ≡ written text
    → write_managed_prompt_file true (present text) next false
      ≡ written (render_managed_prompt next)
unfolding write_managed_prompt_file written_if
managed-rewritable old prompt next text force h =
    rw (sym (written-text old h), has_managed_first_line-render prompt) refl
  where
    written-text :
        (old : Existing)
        → write_managed_prompt_file true old prompt force ≡ written text
        → render_managed_prompt prompt ≡ text
    written-text absent h = ground (arith, h)
    written-text unreadable h = ground (arith, h)
    written-text (present s) h = ground (arith, h)

strip_prefix-append : (s t : String) → strip_prefix s (append s t) ≡ some t
unfolding strip_prefix
strip_prefix-append String.[] t = ap (strip_prefix String.[]) (append_clauses.nil t)
strip_prefix-append (String.◌∷◌ c s) t =
    ap (strip_prefix (String.◌∷◌ c s)) (append_clauses.cons c s t)
    ∙ ground (arith, strip_prefix-append s t)

-- A text that a later part of it contains
contains_text-cons :
    (pat : String) (c : Char) (s : String)
    → contains_text pat s ≡ true
    → contains_text pat (String.◌∷◌ c s) ≡ true
unfolding contains_text find_split found_here prepend
contains_text-cons pat c s h = go (strip_prefix pat (String.◌∷◌ c s)) (find_split pat s) h
  where
    go :
        (o : Option String) (p : Option (String × String))
        → found p ≡ true
        → found (found_here o (prepend c p)) ≡ true
    go (some after) p h = refl
    go none none h = h
    go none (some (before, after)) h = refl

-- A text begins with what it is put together from.
contains_text-first :
    (c : Char) (pat t : String)
    → contains_text (String.◌∷◌ c pat) (append (String.◌∷◌ c pat) t) ≡ true
contains_text-first c pat t =
    ap (contains_text (String.◌∷◌ c pat)) (append_clauses.cons c pat t)
    ∙ unfold contains_text find_split found_here in
      ap (λ o. found (found_here o (prepend c (find_split (String.◌∷◌ c pat) (append pat t)))))
        (ap (strip_prefix (String.◌∷◌ c pat)) (sym (append_clauses.cons c pat t))
          ∙ strip_prefix-append (String.◌∷◌ c pat) t)

contains_text-append :
    (pat s t : String) → contains_text pat t ≡ true → contains_text pat (append s t) ≡ true
contains_text-append pat String.[] t h = ap (contains_text pat) (append_clauses.nil t) ∙ h
contains_text-append pat (String.◌∷◌ c s) t h =
    ap (contains_text pat) (append_clauses.cons c s t)
    ∙ contains_text-cons pat c (append s t) (contains_text-append pat s t h)

-- The section of a prompt, and what is put before or after it, contain the marker.
contains_text-section :
    (prompt t : String)
    → contains_text copilot_begin_marker (append (render_copilot_section prompt) t) ≡ true
unfolding render_copilot_section
contains_text-section prompt t =
    let inner : String =
      append "\n" (append (ensure_trailing_newline prompt) (append copilot_end_marker "\n")) in
    ap (contains_text copilot_begin_marker) (append_assoc copilot_begin_marker inner t)
    ∙ contains_text-first "<" "!-- lalia-begin -->" (append inner t)

contains_text-alone :
    (prompt : String) → contains_text copilot_begin_marker (render_copilot_section prompt) ≡ true
contains_text-alone prompt =
    ap (contains_text copilot_begin_marker) (sym (append-nil (render_copilot_section prompt)))
    ∙ contains_text-section prompt ""

contains_text-upsert :
    (old prompt : String)
    → contains_text copilot_begin_marker
        (upsert_copilot_section old (render_copilot_section prompt))
      ≡ true
unfolding upsert_copilot_section
contains_text-upsert old prompt = at (find_split copilot_begin_marker old)
  where
    section : String
    section = render_copilot_section prompt

    placed :
        (x t : String)
        → contains_text copilot_begin_marker t ≡ true
        → contains_text copilot_begin_marker (append x (append "\n" t)) ≡ true
    placed x t h =
        contains_text-append copilot_begin_marker x (append "\n" t)
          (contains_text-append copilot_begin_marker "\n" t h)

    tailed :
        (before : String) (o : Option (String × String))
        → contains_text copilot_begin_marker (replace_tail before section o) ≡ true
    tailed before none =
        placed (trim_right_by is_newline before) section (contains_text-alone prompt)
    tailed before (some (was, tail)) =
        let rest : String = trim_left_by is_newline tail in
        let start : String = trim_right_by is_newline before in
        if_both (λ t. contains_text copilot_begin_marker t ≡ true) (rest == "")
          (placed start section (contains_text-alone prompt))
          (placed start (append section (append "\n" rest))
            (contains_text-section prompt (append "\n" rest)))

    at :
        (o : Option (String × String))
        → contains_text copilot_begin_marker (upsert_at old section o) ≡ true
    at none =
        if_both (λ t. contains_text copilot_begin_marker t ≡ true) (old == "")
          (contains_text-alone prompt)
          (placed (ensure_trailing_newline old) section (contains_text-alone prompt))
    at (some (before, after)) = tailed before (find_split copilot_end_marker after)

-- A Copilot prompt file that was written, new, over the whole file or in place of its section, may
-- be written again without force. Then the new section stands in place of the text from the first
-- begin marker to the first end marker after it, both included, or to the end of the text if no end
-- marker follows; the text before it is kept but for its trailing line feeds, after which one
-- follows, and the text after it but for its leading line feeds, before which one stands if anything
-- is left.
pub copilot-rewritable :
    (old : Existing) (prompt next text : String) (force : Bool)
    → write_copilot_prompt_file true old prompt force ≡ written text
    → (result : String) × (write_copilot_prompt_file true (present text) next false
        ≡ written result)
      × Replaces text (render_copilot_section next) result
unfolding write_copilot_prompt_file written_if
copilot-rewritable old prompt next text force h =
    let has = marked old h in
    (
      upsert_copilot_section text (render_copilot_section next),
      rw has refl,
      upsert_copilot_section-Replaces text (render_copilot_section next) has,
    )
  where
    marked :
        (old : Existing)
        → write_copilot_prompt_file true old prompt force ≡ written text
        → contains_text copilot_begin_marker text ≡ true
    marked absent h =
        let same : render_copilot_section prompt ≡ text = ground (arith, h) in
        subst (λ t. contains_text copilot_begin_marker t ≡ true) same (contains_text-alone prompt)
    marked unreadable h = ground (arith, h)
    marked (present s) h = elim (Bool-cases (contains_text copilot_begin_marker s)) [
      | inl has ↦
          let same : upsert_copilot_section s (render_copilot_section prompt) ≡ text =
            ground (arith, h, has) in
          subst (λ t. contains_text copilot_begin_marker t ≡ true) same
            (contains_text-upsert s prompt)
      | inr lacks ↦
          let same : render_copilot_section prompt ≡ text = ground (arith, h, lacks) in
          subst (λ t. contains_text copilot_begin_marker t ≡ true) same (contains_text-alone prompt)
    ]
