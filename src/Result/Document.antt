-- ===== src/Result/Document.antt =====
-- `Decode` and `major` of internal/result/build.go. encoding/json is a parameter: the field
-- schema_version of a text, and the document that a text holds, each of which can fail.
use tracepoint.Base.{
  Bool, true, false, not, ◌&&◌, ◌≡◌, refl, Option, none, some, [], ◌∷◌, arith, if◌then◌else◌,
}
use tracepoint.Base.{◌==◌ as nat_eq}
use tracepoint.Base.Text.{Text, codes, ◌==◌}
use tracepoint.Errs.{Result, ok, err, error, result_parse, result_schema_unsupported, is_ok}

abbrev pub schema_version : Text
schema_version = codes "1.0"

-- The bytes before the first dot.
unfoldable pub major : Text → Text
major [] = []
major (c ∷ cs) = let rest = major cs in if nat_eq c b'.' then [] else c ∷ rest

pub record Json : Type 1 where
  pub Document : Type 0
  pub probe : Text → Option Text
  pub unmarshal : Text → Option Document

module _ (j : Json) where
  abbrev document_of : Option j.Document → Result j.Document
  document_of none = err (error result_parse "")
  document_of (some r) = ok r

  abbrev decode_probed : Text → Option Text → Result j.Document
  decode_probed bytes none = err (error result_parse "")
  decode_probed bytes (some v) =
      if v == []
      then err (error result_parse "")
      else if not (major v == major schema_version)
      then err (error result_schema_unsupported "")
      else document_of (j.unmarshal bytes)

  unfoldable pub decode : Text → Result j.Document
  decode bytes = decode_probed bytes (j.probe bytes)

  -- Whether a version is 1, or 1 with a dot and more behind it.
  abbrev pub is_version_1 : Text → Bool
  is_version_1 [] = false
  is_version_1 (a ∷ []) = nat_eq a b'1'
  is_version_1 (a ∷ b ∷ cs) = nat_eq a b'1' && nat_eq b b'.'

  abbrev pub version_read : Option Text → Bool
  version_read none = false
  version_read (some v) = is_version_1 v

  abbrev pub is_some {ℓ} : {A : Type ℓ} → Option A → Bool
  is_some none = false
  is_some (some _) = true

  major-version_1 : (v : Text) → (major v == major schema_version) ≡ is_version_1 v
  unfolding major ◌==◌
  major-version_1 [] = refl
  major-version_1 (a ∷ []) = ground arith
  major-version_1 (a ∷ b ∷ cs) = ground arith

  is_ok-document_of : (d : Option j.Document) → is_ok (document_of d) ≡ is_some d
  is_ok-document_of none = refl
  is_ok-document_of (some r) = refl

  is_ok-decode_probed :
      (bytes : Text) (v : Option Text)
      → is_ok (decode_probed bytes v) ≡ (version_read v && is_some (j.unmarshal bytes))
  unfolding ◌==◌
  is_ok-decode_probed bytes none = refl
  is_ok-decode_probed bytes (some []) = refl
  is_ok-decode_probed bytes (some (a ∷ as')) = go (major (a ∷ as') == major schema_version) refl
    where
      go :
          (b : Bool)
          → (major (a ∷ as') == major schema_version) ≡ b
          → is_ok (
              if not b
              then err (error result_schema_unsupported "")
              else document_of (j.unmarshal bytes))
            ≡ (is_version_1 (a ∷ as') && is_some (j.unmarshal bytes))
      go true e = ground (arith, is_ok-document_of (j.unmarshal bytes), major-version_1 (a ∷ as'))
      go false e = ground (arith, major-version_1 (a ∷ as'))

  -- A document is read exactly when its schema version can be read and is 1, alone or before a dot, and
  -- the rest of it can be decoded.
  pub decode-accepts :
      (bytes : Text)
      → is_ok (decode bytes) ≡ (version_read (j.probe bytes) && is_some (j.unmarshal bytes))
  unfolding decode
  decode-accepts bytes = is_ok-decode_probed bytes (j.probe bytes)
