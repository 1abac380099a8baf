-- ===== src/Examples/CapJson.antt =====
-- A textual form of capability SIDs that can stand for the JSON of src/cap.rs: each text is its
-- characters raised by one, with a zero behind it, and braces surround them all.
use mathlib.Core.List.{reverse, reverse-append, reverse-reverse, append_assoc}
use yj_sandbox.Base.{
  zero, suc, true, ◌&&◌, ◌≡◌, refl, sym, ap, ◌∙◌, List, [], ◌∷◌, ◌++◌, map, Option, none, some,
}
use yj_sandbox.Base.Text.{
  Text, codes, cons_to_head, trim, trim_matches, trim_start_while, trim_end_while, is_whitespace,
  starts_with, ends_with,
}
use yj_sandbox.Cap.{SidMap, CapSids, CapLibraries}
use yj_sandbox.Cap.Files.{IsSerde}

unfoldable encode : List Text → Text
encode [] = []
encode (t ∷ ts) = map suc t ++ (0 ∷ encode ts)

unfoldable decode : Text → List Text
decode [] = []
decode (zero ∷ s) = [] ∷ decode s
decode (suc c ∷ s) = cons_to_head c (decode s)

decode-text : (t s : Text) → decode (map suc t ++ (0 ∷ s)) ≡ t ∷ decode s
unfolding decode
decode-text [] s = refl
decode-text (c ∷ t) s = ap (cons_to_head c) (decode-text t s)

decode-encode : (ts : List Text) (s : Text) → decode (encode ts ++ s) ≡ ts ++ decode s
unfolding encode
decode-encode [] s = refl
decode-encode (t ∷ ts) s =
    ap decode (append_assoc (map suc t) (0 ∷ encode ts) s)
    ∙ decode-text t (encode ts ++ s)
    ∙ ap (λ l. t ∷ l) (decode-encode ts s)

abbrev flat_pairs : SidMap → List Text → List Text
flat_pairs [] rest = rest
flat_pairs ((k, v) ∷ m) rest = k ∷ v ∷ flat_pairs m rest

abbrev first_pairs : Text → List Text → SidMap
first_pairs (_ ∷ ms) (k ∷ v ∷ rest) = (k, v) ∷ first_pairs ms rest
first_pairs _ _ = []

abbrev after_pairs : Text → List Text → List Text
after_pairs [] rest = rest
after_pairs (_ ∷ ms) (k ∷ v ∷ rest) = after_pairs ms rest
after_pairs _ _ = []

abbrev all_pairs : List Text → SidMap
all_pairs (k ∷ v ∷ rest) = (k, v) ∷ all_pairs rest
all_pairs _ = []

abbrev marks : SidMap → Text
marks = map (λ _. 0)

first_pairs-flat : (m : SidMap) (rest : List Text) → first_pairs (marks m) (flat_pairs m rest) ≡ m
first_pairs-flat [] rest = refl
first_pairs-flat ((k, v) ∷ m) rest = ap (λ l. (k, v) ∷ l) (first_pairs-flat m rest)

after_pairs-flat :
    (m : SidMap) (rest : List Text) → after_pairs (marks m) (flat_pairs m rest) ≡ rest
after_pairs-flat [] rest = refl
after_pairs-flat ((k, v) ∷ m) rest = after_pairs-flat m rest

all_pairs-flat : (m : SidMap) (t : Text) → all_pairs (flat_pairs m [] ++ t ∷ []) ≡ m
all_pairs-flat [] t = refl
all_pairs-flat ((k, v) ∷ m) t = ap (λ l. (k, v) ∷ l) (all_pairs-flat m t)

abbrev fields : CapSids → List Text
fields caps =
    caps.workspace
    ∷ caps.readonly
    ∷ marks caps.workspace_by_cwd
    ∷ flat_pairs caps.workspace_by_cwd (flat_pairs caps.writable_root_by_path [])

abbrev caps_of : List Text → Option CapSids
caps_of (workspace ∷ readonly ∷ ms ∷ rest) = some (record {
  workspace = workspace;
  readonly = readonly;
  workspace_by_cwd = first_pairs ms rest;
  writable_root_by_path = all_pairs (after_pairs ms rest);
})
caps_of _ = none

unfoldable written : CapSids → Text
written caps = 123 ∷ (encode (fields caps) ++ 125 ∷ [])

abbrev without_brace : Text → Text
without_brace [] = []
without_brace (c ∷ s) = s

unfoldable pub libraries : CapLibraries
unfolding written decode encode
libraries = record {
  to_string = written;
  from_str = λ t. caps_of (decode (without_brace t));
  random_u32 = λ n. n;
}

flat_pairs-append :
    (m : SidMap) (rest ts : List Text) → flat_pairs m rest ++ ts ≡ flat_pairs m (rest ++ ts)
flat_pairs-append [] rest ts = refl
flat_pairs-append ((k, v) ∷ m) rest ts = ap (λ l. k ∷ v ∷ l) (flat_pairs-append m rest ts)

caps_of-fields : (caps : CapSids) (t : Text) → caps_of (fields caps ++ t ∷ []) ≡ some caps
caps_of-fields caps t =
    let m = caps.workspace_by_cwd in
    let n = flat_pairs caps.writable_root_by_path [] in
    rw
      (
        flat_pairs-append m n (t ∷ []),
        first_pairs-flat m (n ++ t ∷ []),
        after_pairs-flat m (n ++ t ∷ []),
        all_pairs-flat caps.writable_root_by_path t,
      )
      refl

reverse-braces : (s : Text) → reverse (123 ∷ (s ++ 125 ∷ [])) ≡ 125 ∷ reverse (123 ∷ s)
reverse-braces s = reverse-append (123 ∷ s) (125 ∷ [])

reverse-brace : (s : Text) → reverse (125 ∷ reverse (123 ∷ s)) ≡ 123 ∷ (s ++ 125 ∷ [])
reverse-brace s = ap reverse (sym (reverse-braces s)) ∙ reverse-reverse (123 ∷ (s ++ 125 ∷ []))

braces_trim : (s : Text) → trim (123 ∷ (s ++ 125 ∷ [])) ≡ 123 ∷ (s ++ 125 ∷ [])
unfolding trim trim_matches trim_start_while trim_end_while is_whitespace
braces_trim s =
    ap (λ r. reverse (trim_start_while is_whitespace r)) (reverse-braces s) ∙ reverse-brace s

braces_end :
    (s : Text)
    → (starts_with (123 ∷ (s ++ 125 ∷ [])) (codes "{")
        && ends_with (123 ∷ (s ++ 125 ∷ [])) (codes "}"))
      ≡ true
unfolding starts_with ends_with
braces_end s = ap (λ r. starts_with r (125 ∷ [])) (reverse-braces s)

pub libraries-IsSerde : IsSerde libraries
unfolding written libraries
libraries-IsSerde = record {
  reads =
      λ caps. ap caps_of (decode-encode (fields caps) (125 ∷ [])) ∙ caps_of-fields caps (124 ∷ []);
  is_trimmed = λ caps. braces_trim (encode (fields caps));
  is_object = λ caps. braces_end (encode (fields caps));
}
