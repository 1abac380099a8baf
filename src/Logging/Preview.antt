-- ===== src/Logging/Preview.antt =====
-- Where src/logging.rs cuts a command.
use mathlib.Core.List.{append-nil}
use yj_sandbox.Base.{
  ℕ, ◌+◌, ◌-◌, ◌≤◌, ◌<◌, leb, ◌≡◌, refl, sym, ap, ◌∙◌, subst, some, List, [], ◌∷◌, ◌++◌, arith, inl,
  inr, Bool-cases,
}
use yj_sandbox.Base.Text.{Text, join_with}
use yj_sandbox.Logging.{
  log_command_preview_limit, len_utf8, byte_len, last_end, slice_to, take_bytes_at_char_boundary,
  preview,
}

-- The longest start of the text, in whole characters, that has at most so many bytes.
pub record IsCut (max_bytes : ℕ) (text cut : Text) : Type 0 where
  pub rest : Text
  pub is_start : text ≡ cut ++ rest
  pub fits : byte_len cut ≤ max_bytes
  pub is_longest : (c : ℕ) (cs : Text) → rest ≡ c ∷ cs → max_bytes < byte_len cut + len_utf8 c

len_utf8_pos : (c : ℕ) → 0 < len_utf8 c
unfolding len_utf8
len_utf8_pos c = ground arith

slice_to_lem : (cut rest : Text) → slice_to (byte_len cut) (cut ++ rest) ≡ some cut
unfolding slice_to byte_len
slice_to_lem [] [] = refl
slice_to_lem [] (c ∷ cs) = refl
slice_to_lem (c ∷ cut) rest =
    let same : len_utf8 c + byte_len cut - len_utf8 c ≡ byte_len cut = omega arith in
    ground (arith, len_utf8_pos c, slice_to_lem cut rest, same)

IsCut-cons :
    (m n : ℕ) (c : ℕ) (text cut : Text)
    → n + len_utf8 c ≡ m
    → IsCut n text cut
    → IsCut m (c ∷ text) (c ∷ cut)
unfolding byte_len
IsCut-cons m n c text cut e is = record {
  rest = is.rest;
  is_start = ap (λ t. c ∷ t) is.is_start;
  fits = omega (arith, e, is.fits);
  is_longest = λ d ds more. omega (arith, e, is.is_longest d ds more);
}

IsCut-nil :
    (m : ℕ) (text : Text) → ((c : ℕ) (cs : Text) → text ≡ c ∷ cs → m < len_utf8 c) → IsCut m text []
unfolding byte_len
IsCut-nil m text long = record {
  rest = text;
  is_start = refl;
  fits = omega arith;
  is_longest = λ c cs more. omega (arith, long c cs more);
}

last_end-IsCut :
    (max_bytes index : ℕ) (text : Text)
    → index ≤ max_bytes
    → (cut : Text) × (last_end max_bytes index index text ≡ index + byte_len cut)
      × IsCut (max_bytes - index) text cut
unfolding last_end byte_len
last_end-IsCut max_bytes index [] low =
    ([], omega arith, IsCut-nil (max_bytes - index) [] (λ d ds more. ground (arith, more)))
last_end-IsCut max_bytes index (c ∷ cs) low =
    elim (Bool-cases (leb (index + len_utf8 c) max_bytes)) [
      | inl fits ↦
          let (cut, e, is) = last_end-IsCut max_bytes (index + len_utf8 c) cs (ground arith) in
          (
            c ∷ cut,
            rw (fits, e) (omega arith),
            IsCut-cons (max_bytes - index) (max_bytes - (index + len_utf8 c)) c cs cut
                (ground arith) is,
          )
      | inr over ↦ (
        [],
        rw (over) (omega arith),
        IsCut-nil (max_bytes - index) (c ∷ cs) (λ d ds more. ground (arith, more)),
      )
    ]

IsCut-whole : (m : ℕ) (text : Text) → byte_len text ≤ m → IsCut m text text
IsCut-whole m text low = record {
  rest = [];
  is_start = sym (append-nil text);
  fits = low;
  is_longest = λ d ds more. ground (arith, more);
}

slice_to-last_end :
    (max_bytes : ℕ) (text : Text)
    → (cut : Text) × (slice_to (last_end max_bytes 0 0 text) text ≡ some cut)
      × IsCut max_bytes text cut
slice_to-last_end max_bytes text =
    let (cut, e, is) = last_end-IsCut max_bytes 0 text (omega arith) in
    let end : last_end max_bytes 0 0 text ≡ byte_len cut = omega (arith, e) in
    let found : slice_to (last_end max_bytes 0 0 text) text ≡ some cut =
      ap (slice_to (last_end max_bytes 0 0 text)) is.is_start
      ∙ ap (λ n. slice_to n (cut ++ is.rest)) end
      ∙ slice_to_lem cut is.rest in
    (cut, found, subst (λ m. IsCut m text cut) (omega arith) is)

-- The preview is found without a panic, it is the command's words with spaces between them when
-- these have at most 200 bytes, and in any case the longest start of that in whole characters that has.
pub preview-IsCut :
    (command : List Text)
    → (cut : Text) × (preview command ≡ some cut)
      × IsCut log_command_preview_limit (join_with (32 ∷ []) command) cut
      × (byte_len (join_with (32 ∷ []) command) ≤ log_command_preview_limit
          → cut ≡ join_with (32 ∷ []) command)
unfolding preview take_bytes_at_char_boundary
preview-IsCut command =
    let joined = join_with (32 ∷ []) command in
    elim (Bool-cases (leb (byte_len joined) log_command_preview_limit)) [
      | inl short ↦ (
        joined,
        rw short refl,
        IsCut-whole log_command_preview_limit joined (ground arith),
        λ low. refl,
      )
      | inr long ↦
          let (cut, found, is) = slice_to-last_end log_command_preview_limit joined in
          (cut, rw long found, is, λ low. ground (arith, low, long))
    ]
