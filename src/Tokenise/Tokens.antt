-- ===== src/Tokenise/Tokens.antt =====
-- The tokens of a line, and that the loop takes all of them.
use jzip.Prelude.{
  ℕ, fun_ext, zero, suc, ◌+◌, ◌<◌, ◌≤◌, ◌≡◌, ◌∙◌, ◌⊎◌, inl, inr, refl, sym, ap, arith, Bool, true,
  false, not, ◌||◌, ◌==◌, if◌then◌else◌, Bool-cases, List, [], ◌∷◌, ◌++◌, length, append_assoc,
}
use jzip.Machine.{Machine, M, pure, ◌>>=◌, and_then}
use jzip.Input.{Dictionary}
use jzip.Tokenise.{Found, contains, separators, scan_token, next_token, take_token, tokenise_loop}

-- The characters that belong to tokens: the dictionary's separators and what is no separator.
abbrev pub is_kept : List ℕ → ℕ → Bool
is_kept punctuation c = contains c punctuation || not (contains c separators)

unfoldable pub kept : List ℕ → List ℕ → List ℕ
kept punctuation [] = []
kept punctuation (c ∷ s) =
    if is_kept punctuation c then c ∷ kept punctuation s else kept punctuation s

-- The tokens of a line, one after the other.
unfoldable pub all_tokens : ℕ → List ℕ → List ℕ → ℕ → List Found
all_tokens zero punctuation s position = []
all_tokens (suc fuel) punctuation s position =
    let token = next_token punctuation s position in
    let others = all_tokens fuel punctuation token.rest token.position in
    if length token.text == 0 then [] else token ∷ others

unfoldable pub texts : List Found → List ℕ
texts [] = []
texts (token ∷ tokens) = token.text ++ texts tokens

-- What the loop of `next_token` keeps: nothing that belongs to tokens is lost.
record Scans (punctuation text : List ℕ) (s : List ℕ) (f : Found) : Type 0 where
  whole : text ++ kept punctuation s ≡ f.text ++ kept punctuation f.rest
  shorter : length f.rest ≤ length s
  progress : length text ≡ 0 → (length f.text ≡ 0) ⊎ (length f.rest < length s)
  ended : length f.text ≡ 0 → f.rest ≡ []

nil_of : (xs : List ℕ) → (length xs == 0) ≡ true → xs ≡ []
nil_of [] h = refl
nil_of (x ∷ xs) h = absurd (ground arith)

kept-in : (p : List ℕ) (c : ℕ) (s : List ℕ) → contains c p ≡ true → kept p (c ∷ s) ≡ c ∷ kept p s
unfolding kept
kept-in p c s h = rw h refl

kept-out :
    (p : List ℕ) (c : ℕ) (s : List ℕ)
    → contains c p ≡ false
    → contains c separators ≡ true
    → kept p (c ∷ s) ≡ kept p s
unfolding kept
kept-out p c s h k = rw (h, k) refl

kept-char :
    (p : List ℕ) (c : ℕ) (s : List ℕ)
    → contains c p ≡ false
    → contains c separators ≡ false
    → kept p (c ∷ s) ≡ c ∷ kept p s
unfolding kept
kept-char p c s h k = rw (h, k) refl

scan_token-Scans :
    (punctuation text : List ℕ) (start : ℕ) (s : List ℕ) (position : ℕ)
    → Scans punctuation text s (scan_token punctuation text start s position)
unfolding scan_token
scan_token-Scans punctuation text start [] position = record {
  whole = refl;
  shorter = omega arith;
  progress = λ h. inl h;
  ended = λ h. refl;
}
scan_token-Scans punctuation text start (c ∷ s) position =
    elim (Bool-cases (contains c punctuation)) [
      | inl punct ↦ elim (Bool-cases (length text == 0)) [
        | inl none' ↦
            rw (punct, none')
              (record {
                whole = rw (nil_of text none', kept-in punctuation c s punct) refl;
                shorter = omega arith;
                progress = λ h. inr (omega arith);
                ended = λ h. absurd (omega arith);
              })
        | inr some' ↦
            rw (punct, some')
              (record {
                whole = refl;
                shorter = omega arith;
                progress = λ h. inl h;
                ended = λ h. absurd (ground arith);
              })
      ]
      | inr other ↦ elim (Bool-cases (contains c separators)) [
        | inl sep ↦ elim (Bool-cases (length text == 0)) [
          | inl none' ↦
              rw (other, sep, none')
                (let rec = scan_token-Scans punctuation text position s (position + 1) in
                  record {
                    whole = rw (kept-out punctuation c s other sep) rec.whole;
                    shorter = omega (arith, rec.shorter);
                    progress = λ h. inr (omega (arith, rec.shorter));
                    ended = rec.ended;
                  })
          | inr some' ↦
              rw (other, sep, some')
                (record {
                  whole = rw (kept-out punctuation c s other sep) refl;
                  shorter = omega arith;
                  progress = λ h. inl h;
                  ended = λ h. absurd (ground arith);
                })
        ]
        | inr char ↦
            rw (other, char)
              (let rec =
                  scan_token-Scans punctuation (text ++ (c ∷ []))
                    (if length text == 0 then position else start) s (position + 1) in
                record {
                  whole =
                      rw (kept-char punctuation c s other char)
                        (sym (append_assoc text (c ∷ []) (kept punctuation s)) ∙ rec.whole);
                  shorter = omega (arith, rec.shorter);
                  progress = λ h. inr (omega (arith, rec.shorter));
                  ended = rec.ended;
                })
      ]
    ]

next_token-Scans :
    (punctuation s : List ℕ) (position : ℕ)
    → Scans punctuation [] s (next_token punctuation s position)
unfolding next_token
next_token-Scans punctuation s position = scan_token-Scans punctuation [] 0 s position

next_token-shorter :
    (punctuation s : List ℕ) (position : ℕ)
    → (length (next_token punctuation s position).text == 0) ≡ false
    → length (next_token punctuation s position).rest < length s
next_token-shorter punctuation s position h =
    elim ((next_token-Scans punctuation s position).progress refl) [
      | inl e ↦ absurd (ground arith)
      | inr l ↦ l
    ]

kept-nil : (p : List ℕ) → kept p [] ≡ []
unfolding kept
kept-nil p = refl

append_empty : (xs ys : List ℕ) → xs ≡ [] → ys ≡ [] → xs ++ ys ≡ []
append_empty [] ys e e' = e'
append_empty (x ∷ xs) ys e e' = cc

ended_kept :
    (p s : List ℕ) (f : Found) → Scans p [] s f → (length f.text == 0) ≡ true → [] ≡ kept p s
ended_kept p s f scans last = sym (
    scans.whole
    ∙ append_empty f.text (kept p f.rest) (nil_of f.text last)
        (ap (kept p) (scans.ended (ground arith)) ∙ kept-nil p))

-- The texts of the tokens of a line, one behind the other, are the characters of the line that belong
-- to tokens, in order: the loop over the tokens loses none and adds none.
pub texts-all_tokens :
    (fuel : ℕ) (punctuation s : List ℕ) (position : ℕ)
    → length s < fuel
    → texts (all_tokens fuel punctuation s position) ≡ kept punctuation s
unfolding all_tokens texts
texts-all_tokens zero punctuation s position h = absurd (omega arith)
texts-all_tokens (suc fuel) punctuation s position h =
    let token = next_token punctuation s position in
    let scans = next_token-Scans punctuation s position in
    elim (Bool-cases (length token.text == 0)) [
      | inl last ↦ rw last (ended_kept punctuation s token scans last)
      | inr more ↦ rw more (
          ap (λ t. token.text ++ t)
            (texts-all_tokens fuel punctuation token.rest token.position
              (omega (arith, next_token-shorter punctuation s position more)))
          ∙ sym scans.whole)
    ]

-- Tokens taken one after the other.
pub take_all : Dictionary → ℕ → ℕ → List Found → ℕ → M ℕ
take_all d token_buf flag [] words = pure words
take_all d token_buf flag (token ∷ tokens) words = do
  words' ← take_token d token_buf flag token words
  take_all d token_buf flag tokens words'

-- The loop of `tokenise_line`, with more fuel than the line has characters, takes the tokens of the line
-- one after the other, each with the count that the one before left, and comes to an end by itself.
pub tokenise_loop-take_all :
    (fuel : ℕ) (punctuation : List ℕ) (d : Dictionary) (token_buf flag : ℕ) (s : List ℕ)
    (position words : ℕ) (m : Machine)
    → length s < fuel
    → tokenise_loop fuel punctuation d token_buf flag s position words m
      ≡ take_all d token_buf flag (all_tokens fuel punctuation s position) words m
unfolding tokenise_loop take_all all_tokens
tokenise_loop-take_all zero punctuation d token_buf flag s position words m h = absurd (omega arith)
tokenise_loop-take_all (suc fuel) punctuation d token_buf flag s position words m h =
    let token = next_token punctuation s position in
    elim (Bool-cases (length token.text == 0)) [
      | inl last ↦ rw last refl
      | inr more ↦ rw more (
          ap (λ k. and_then (take_token d token_buf flag token words m) k)
            (fun_ext (λ w. fun_ext (λ n.
              tokenise_loop-take_all fuel punctuation d token_buf flag token.rest token.position w n
                (omega (arith, next_token-shorter punctuation s position more))))))
    ]
