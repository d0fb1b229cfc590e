-- ===== src/Ledger/Cursor.antt =====
-- apps/api/src/lib/cursor.ts: encodeCursor and decodeCursor, and UUID_RE of lib/validation.ts.
-- `platform` is what they call of Node.js: JSON, base64url and Date; and the text of a UUID, as the
-- database has it.
use homi_v.Prelude.{
  ℕ, zero, suc, ◌≡◌, refl, ap, ◌∙◌, Bool, true, false, not, ◌&&◌, ◌||◌, Option, none, some, List,
  [], ◌∷◌, leb, if◌then◌else◌, ◌==◌,
}
use homi_v.Prelude.Decimal.{is_digit}
use homi_v.Prelude.Result.{Result, ok, err}
use homi_v.Db.{Error, bad_request}
use homi_v.Posting.{is_null}

-- The texts of a time and of an id.
pub record LedgerCursor : Type 0 where
  pub t : List ℕ
  pub id : List ℕ

-- The fields of a parsed object, each if it is a text.
pub record Parsed : Type 0 where
  pub t : Option (List ℕ)
  pub id : Option (List ℕ)

-- The time, in milliseconds, and the id of a row.
pub record Cursor : Type 0 where
  pub t : ℕ
  pub id : ℕ

pub record Platform : Type 0 where
  pub stringify : LedgerCursor → List ℕ
  -- `JSON.parse` and the reading of the two fields, unless that throws
  pub parse : List ℕ → Option Parsed
  pub to_base64url : List ℕ → List ℕ
  pub from_base64url : List ℕ → List ℕ
  pub to_iso_string : ℕ → List ℕ
  -- `Date.parse`, without a value for NaN
  pub parse_date : List ℕ → Option ℕ
  pub uuid_text : ℕ → List ℕ
  pub uuid_of : List ℕ → ℕ

-- `[0-9a-f]`, in either case
abbrev pub is_hex : ℕ → Bool
is_hex c = is_digit c || ((leb b'a' c && leb c b'f') || (leb b'A' c && leb c b'F'))

abbrev pub hex_run : ℕ → (List ℕ → Bool) → List ℕ → Bool
hex_run zero next s = next s
hex_run (suc n) next [] = false
hex_run (suc n) next (c ∷ s) = is_hex c && hex_run n next s

abbrev pub dash : (List ℕ → Bool) → List ℕ → Bool
dash next [] = false
dash next (c ∷ s) = c == b'-' && next s

abbrev pub is_blank : List ℕ → Bool
is_blank [] = true
is_blank (c ∷ s) = false

-- `UUID_RE.test(id)`
abbrev pub is_uuid : List ℕ → Bool
is_uuid =
    hex_run 8 (dash (hex_run 4 (dash (hex_run 4 (dash (hex_run 4 (dash (hex_run 12 is_blank))))))))

module _ (platform : Platform) where
  -- `encodeCursor`
  unfoldable pub encode_cursor : LedgerCursor → List ℕ
  encode_cursor cursor = platform.to_base64url (platform.stringify cursor)

  abbrev pub check_shape : Parsed → Result Error LedgerCursor
  check_shape parsed = elim parsed.t [
    | none ↦ err (bad_request "Invalid cursor")
    | some t ↦ elim parsed.id [
      | none ↦ err (bad_request "Invalid cursor")
      | some id ↦
          if is_null (platform.parse_date t) || not (is_uuid id)
          then err (bad_request "Invalid cursor")
          else ok (record { t = t; id = id })
    ]
  ]

  -- `decodeCursor`
  unfoldable pub decode_cursor : List ℕ → Result Error LedgerCursor
  decode_cursor raw = elim (platform.parse (platform.from_base64url raw)) [
    | none ↦ err (bad_request "Invalid cursor")
    | some parsed ↦ check_shape parsed
  ]

  -- `{ t: last.row.createdAt.toISOString(), id: last.row.id }`
  abbrev pub texts_of : Cursor → LedgerCursor
  texts_of k = record { t = platform.to_iso_string k.t; id = platform.uuid_text k.id }

  abbrev pub time_or : Option ℕ → ℕ
  time_or none = 0
  time_or (some t) = t

  -- The time and the id that the texts stand for in the query.
  abbrev pub position_of : LedgerCursor → Cursor
  position_of c = record { t = time_or (platform.parse_date c.t); id = platform.uuid_of c.id }

  -- What Node.js documents of JSON and base64url: they read back what they have written, and
  -- write no empty text for an object.
  pub record Documented : Type 0 where
    pub decodes : (s : List ℕ) → platform.from_base64url (platform.to_base64url s) ≡ s
    pub parses :
        (c : LedgerCursor)
        → platform.parse (platform.stringify c) ≡ some (record { t = some c.t; id = some c.id })
    pub filled :
        (c : LedgerCursor) → is_blank (platform.to_base64url (platform.stringify c)) ≡ false

  -- The texts of a row's time and id stand for them: `Date.parse` reads what `toISOString` writes,
  -- and the text of a UUID has the form that the standard gives it.
  pub record Printed (k : Cursor) : Type 0 where
    pub time : platform.parse_date (platform.to_iso_string k.t) ≡ some k.t
    pub form : is_uuid (platform.uuid_text k.id) ≡ true
    pub id_is : platform.uuid_of (platform.uuid_text k.id) ≡ k.id

  -- The cursor of a row is accepted, and stands for the row's time and id.
  pub decode_cursor-encode_cursor :
      Documented
      → (k : Cursor) → Printed k
      → (decode_cursor (encode_cursor (texts_of k)) ≡ ok (texts_of k))
        × (position_of (texts_of k) ≡ k)
  unfolding decode_cursor encode_cursor
  decode_cursor-encode_cursor d k p = (
    ap read (d.decodes (platform.stringify (texts_of k)))
        ∙ (ap shaped (d.parses (texts_of k)) ∙ rw (p.time, p.form) refl),
    rw (p.time, p.id_is) refl,
  )
    where
      shaped : Option Parsed → Result Error LedgerCursor
      shaped o = elim o [
        | none ↦ err (bad_request "Invalid cursor")
        | some parsed ↦ check_shape parsed
      ]

      read : List ℕ → Result Error LedgerCursor
      read s = elim (platform.parse s) [
        | none ↦ err (bad_request "Invalid cursor")
        | some parsed ↦ check_shape parsed
      ]
