-- ===== src/Examples/Codecs.antt =====
-- Concrete encodings, a concrete file of an fst map and a concrete hash.
use greplm.Common.{
  ℕ, zero, suc, ◌%◌, ◌^◌, ◌<◌, ◌≤◌, ◌≡◌, refl, sym, ap, ◌∙◌, true, Option, none, some, List, [],
  ◌∷◌, ◌++◌, map, arith, length, length-append, take, drop, take_append, drop_append,
}
use mathlib.Core.Option.{some-injective}
use greplm.Common.Options.{◌>>=◌, >>=-eq-some}
use greplm.Examples.Candidates.{entry_lists}
use greplm.Fst.{FstFile, FstFileLaws}
use greplm.Segment.{Text, DocMeta, RefKind, call, import}
use greplm.Segment.Codecs.{Codecs, CodecsLaws}
use greplm.Segment.Files.{Postcard, PostcardLaw}
use greplm.Table.Builder.{RefRow, SymRow}

-- An encoder of documents whose path is one byte and that have no language.
abbrev encode_row : List ℕ → List ℕ → ℕ → ℕ → ℕ → List ℕ → Option (List ℕ)
encode_row (p ∷ []) [] s h l rest = some (p ∷ s ∷ h ∷ l ∷ rest)
encode_row _ _ s h l rest = none

abbrev encode_docs : List DocMeta → Option (List ℕ)
encode_docs [] = some []
encode_docs (m ∷ ms) = do rest ← encode_docs ms; encode_row m.path m.lang m.size m.hash m.lines rest

abbrev decode_docs : List ℕ → List DocMeta
decode_docs (p ∷ s ∷ h ∷ l ∷ rest) =
    record { path = p ∷ []; lang = []; size = s; hash = h; lines = l } ∷ decode_docs rest
decode_docs _ = []

abbrev doc_codec : Postcard (List DocMeta)
doc_codec = record { to_allocvec = encode_docs; from_bytes = λ bytes. some (decode_docs bytes) }

decode-encode_row :
    (path lang : List ℕ) (s h l : ℕ) (rest bytes : List ℕ)
    → encode_row path lang s h l rest ≡ some bytes
    → decode_docs bytes
      ≡ record { path = path; lang = lang; size = s; hash = h; lines = l } ∷ decode_docs rest
decode-encode_row [] lang s h l rest bytes e = cc e
decode-encode_row (p ∷ []) [] s h l rest bytes e = rw (← some-injective _ _ e) refl
decode-encode_row (p ∷ []) (c ∷ cs) s h l rest bytes e = cc e
decode-encode_row (p ∷ q ∷ qs) lang s h l rest bytes e = cc e

decode-encode_docs :
    (ms : List DocMeta) (bytes : List ℕ) → encode_docs ms ≡ some bytes → decode_docs bytes ≡ ms
decode-encode_docs [] bytes e = rw (← some-injective _ _ e) refl
decode-encode_docs (m ∷ ms) bytes e =
    let (rest, encoded, row) = >>=-eq-some (encode_docs ms) _ e in
    decode-encode_row m.path m.lang m.size m.hash m.lines rest bytes row
    ∙ ap (◌∷◌ m) (decode-encode_docs ms rest encoded)

doc_codec-PostcardLaw : PostcardLaw doc_codec
doc_codec-PostcardLaw ms bytes e = ap some (decode-encode_docs ms bytes e)

abbrev pub toy_hash : List ℕ → ℕ
toy_hash bytes = length bytes % 2 ^ 64

pub toy_hash-lt : (bytes : List ℕ) → toy_hash bytes < 2 ^ 64
toy_hash-lt bytes = omega arith

-- Maps of names, each name with its length in front.
abbrev pack : List (Text × ℕ) → List ℕ
pack [] = []
pack ((k, v) ∷ es) = length k ∷ v ∷ (k ++ pack es)

abbrev unpack : ℕ → List ℕ → List (Text × ℕ)
unpack (suc fuel) (n ∷ v ∷ rest) = (take n rest, v) ∷ unpack fuel (drop n rest)
unpack _ _ = []

length-pack : (es : List (Text × ℕ)) → length es ≤ length (pack es)
length-pack [] = omega arith
length-pack ((k, v) ∷ es) = omega (arith, length-append k (pack es), length-pack es)

unpack-pack : (fuel : ℕ) (es : List (Text × ℕ)) → length es ≤ fuel → unpack fuel (pack es) ≡ es
unpack-pack zero [] h = refl
unpack-pack (suc fuel) [] h = refl
unpack-pack zero (e ∷ es) h = absurd (omega arith)
unpack-pack (suc fuel) ((k, v) ∷ es) h =
    rw
      (
        take_append (length k) k (pack es) refl,
        drop_append (length k) k (pack es) refl,
        unpack-pack fuel es (omega arith),
      )
      refl

abbrev pub packed_file : FstFile entry_lists
packed_file = record {
  into_inner = pack;
  new = λ bytes. some (unpack (length bytes) bytes);
  verify = λ m. true;
}

pub packed_file-FstFileLaws : FstFileLaws entry_lists packed_file
packed_file-FstFileLaws = record {
  new-into_inner = λ es. ap some (unpack-pack (length (pack es)) es (length-pack es));
  verify-build = λ es m built. refl;
}

abbrev kind_byte : RefKind → ℕ
kind_byte call = 0
kind_byte import = 1

abbrev kind_of : ℕ → RefKind
kind_of zero = call
kind_of (suc n) = import

kind_of-kind_byte : (k : RefKind) → kind_of (kind_byte k) ≡ k
kind_of-kind_byte call = refl
kind_of-kind_byte import = refl

abbrev read_ref : List ℕ → Option RefRow
read_ref (d ∷ k ∷ l ∷ c ∷ []) = some record { doc_id = d; kind = kind_of k; line = l; column = c }
read_ref _ = none

abbrev pub refs_codec : Postcard RefRow
refs_codec = record {
  to_allocvec = λ r. some (r.doc_id ∷ kind_byte r.kind ∷ r.line ∷ r.column ∷ []);
  from_bytes = read_ref;
}

pub refs_codec-PostcardLaw : PostcardLaw refs_codec
refs_codec-PostcardLaw r bytes e =
    ap read_ref (sym (some-injective _ _ e)) ∙ rw (kind_of-kind_byte r.kind) refl

-- Rows of symbols without a container and a signature.
abbrev write_sym : SymRow → Option Text → Option Text → Option (List ℕ)
write_sym r none none = some (r.doc_id ∷ r.kind_id ∷ r.line_start ∷ r.line_end ∷ [])
write_sym r _ _ = none

abbrev read_sym : List ℕ → Option SymRow
read_sym (d ∷ k ∷ s ∷ e ∷ []) = some record {
  doc_id = d;
  kind_id = k;
  line_start = s;
  line_end = e;
  container = none;
  signature = none;
}
read_sym _ = none

abbrev pub syms_codec : Postcard SymRow
syms_codec = record {
  to_allocvec = λ r. write_sym r r.container r.signature;
  from_bytes = read_sym;
}

read-write_sym :
    (d k s e : ℕ) (container signature : Option Text) (bytes : List ℕ)
    → write_sym
        record {
          doc_id = d;
          kind_id = k;
          line_start = s;
          line_end = e;
          container = container;
          signature = signature;
        }
        container
        signature
      ≡ some bytes
    → read_sym bytes
      ≡ some record {
        doc_id = d;
        kind_id = k;
        line_start = s;
        line_end = e;
        container = container;
        signature = signature;
      }
read-write_sym d k s e none none bytes h = ap read_sym (sym (some-injective _ _ h))
read-write_sym d k s e none (some y) bytes h = absurd (cc h)
read-write_sym d k s e (some x) none bytes h = absurd (cc h)
read-write_sym d k s e (some x) (some y) bytes h = absurd (cc h)

pub syms_codec-PostcardLaw : PostcardLaw syms_codec
syms_codec-PostcardLaw r bytes h =
    read-write_sym r.doc_id r.kind_id r.line_start r.line_end r.container r.signature bytes h

abbrev pair_kinds : List Text → List (Text × ℕ)
pair_kinds [] = []
pair_kinds (k ∷ ks) = (k, 0) ∷ pair_kinds ks

abbrev unpair : Text × ℕ → Text
unpair (k, v) = k

map-unpair : (ks : List Text) → map unpair (pair_kinds ks) ≡ ks
map-unpair [] = refl
map-unpair (k ∷ ks) = ap (◌∷◌ k) (map-unpair ks)

abbrev pub kinds_codec : Postcard (List Text)
kinds_codec = record {
  to_allocvec = λ ks. some (pack (pair_kinds ks));
  from_bytes = λ bytes. some (map unpair (unpack (length bytes) bytes));
}

pub kinds_codec-PostcardLaw : PostcardLaw kinds_codec
kinds_codec-PostcardLaw ks bytes h =
    let e : pack (pair_kinds ks) ≡ bytes = some-injective _ _ h in
    let es = pair_kinds ks in
    ap (λ b. some (map unpair (unpack (length b) b))) (sym e)
    ∙ ap (λ xs. some (map unpair xs)) (unpack-pack (length (pack es)) es (length-pack es))
    ∙ ap some (map-unpair ks)

abbrev pub codecs : Codecs
codecs = record { docs = doc_codec; syms = syms_codec; refs = refs_codec; kinds = kinds_codec }

pub codecs-CodecsLaws : CodecsLaws codecs
codecs-CodecsLaws = record { docs_law = doc_codec-PostcardLaw; kinds_law = kinds_codec-PostcardLaw }
