-- ===== src/Connectors/Upload.antt =====
-- src/cranus/connectors/upload.py. The guess of a type from the bytes, the extraction of a text from each kind of file,
-- the decoding, the hash and the clock are arguments. A file that was uploaded has a name.
use cranus.Base.{
  ℕ, ◌||◌, Option, none, some, ◌∷◌, Str, codes, str_eq, starts_with, or_else, if◌then◌else◌,
}
use cranus.Storage.Json.{Json, null, str, end, field, get_field}
use cranus.Ingestion.Items.{
  RawObject, ParsedDocument, Provenance, Attempt, returned, raised, Connector,
}

-- A `SourceItem` of the upload route, with the keys of its `extra`.
pub record SourceItem : Type 0 where
  pub ref : Str
  pub content : Str
  pub filename : Str
  pub content_type : Option Str
  pub license : Option Str

-- What the libraries make of the bytes of a file.
pub record Extractors : Type 0 where
  pub guess : Str → Option Str
  pub extract_pdf : Str → Attempt Str
  pub extract_html : Str → Attempt Str
  pub extract_json : Str → Attempt Str
  pub transcribe_audio : Str → Attempt Str
  pub decode : Str → Str
  pub content_hash : Str → Str

abbrev pub upload_license : Str
upload_license = codes "user-uploaded"

abbrev pub or_null : Option Str → Json
or_null none = null
or_null (some s) = str s

-- The license given, if one is.
abbrev pub given_license : Option Json → Str
given_license (some (str (c ∷ s))) = c ∷ s
given_license other = upload_license

abbrev pub title_of : Str → Option Json → Str
title_of uri (some (str s)) = s
title_of uri other = uri

abbrev pub parsed_as : RawObject → Attempt Str → Attempt ParsedDocument
parsed_as raw (raised message) = raised message
parsed_as raw (returned text) = returned (record {
  uri = raw.uri;
  title = title_of raw.uri (get_field (codes "filename") raw.extra);
  text = text;
  published_at = none;
})

module _ (extractors : Extractors) (now : ℕ) where
  unfoldable pub fetch : SourceItem → Attempt RawObject
  fetch item = returned (record {
    uri = item.ref;
    content = item.content;
    content_type = or_else (extractors.guess item.content) item.content_type;
    fetched_at = now;
    extra =
        field (codes "filename") (str item.filename)
          (field (codes "license") (or_null item.license) end);
  })

  -- A type that is `None` has no method `startswith`.
  abbrev pub text_of : Option Str → Str → Attempt Str
  text_of none content = raised (codes "'NoneType' object has no attribute 'startswith'")
  text_of (some content_type) content =
      if str_eq content_type (codes "application/pdf")
      then extractors.extract_pdf content
      else if str_eq content_type (codes "text/html")
          || str_eq content_type (codes "application/xhtml+xml")
      then extractors.extract_html content
      else if str_eq content_type (codes "application/json")
      then extractors.extract_json content
      else if starts_with (codes "audio/") content_type || starts_with (codes "video/") content_type
      then extractors.transcribe_audio content
      else returned (extractors.decode content)

  unfoldable pub parse : RawObject → Attempt ParsedDocument
  parse raw = parsed_as raw (text_of raw.content_type raw.content)

  unfoldable pub provenance : SourceItem → RawObject → Provenance
  provenance item raw = record {
    license = given_license (get_field (codes "license") raw.extra);
    content_hash = extractors.content_hash raw.content;
    fetched_at = raw.fetched_at;
  }

  abbrev pub upload_connector : Connector SourceItem
  upload_connector = record {
    name = codes "upload";
    default_license = upload_license;
    fetch = fetch;
    parse = parse;
    provenance = provenance;
  }
