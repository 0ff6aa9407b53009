-- ===== src/Runtime.antt =====
-- What the program takes from its JavaScript runtime and the Web Crypto API, and cannot be read in
-- the repository. Every theorem holds for any such functions.
use angel_cloud.Prelude.{ℕ, String, Bool, Option, List}
use angel_cloud.Json.{Json}

pub record Runtime : Type 0 where
  -- toUpperCase, toLowerCase and normalize("NFC"), by the tables of Unicode
  pub to_upper : String → String
  pub to_lower : String → String
  pub normalize_nfc : String → String
  -- a.localeCompare(b) <= 0
  pub locale_le : String → String → Bool
  -- crypto.subtle.digest("SHA-256", new TextEncoder().encode(text)), as bytes
  pub sha256 : String → List ℕ
  -- JSON.stringify of a text, JSON.parse (none if it throws), and String of a natural number
  pub quote : String → String
  pub parse : String → Option Json
  pub decimal : ℕ → String
  -- decodeURIComponent (none if it throws)
  pub decode_uri_component : String → Option String
