-- ===== src/Oauth/Schema.antt =====
-- The tables of oauth/schema.py, a record for a row and a list of rows for a table, and what the
-- store takes from other code: the keyed hash, the authenticated encryption and the client codec.
use meme_mcp.Base.{ℕ, ◌*◌, ◌≡◌, Bool, Option, some, List, [], Text, Stamp}

pub record ClientRow : Type 0 where
  pub client_id : Text
  pub client_info : Text
  pub client_secret_encrypted : Option Text
  pub client_secret_expires_at : Option ℕ
  pub registered_at : Stamp
  pub last_used_at : Option Stamp

pub record AuthCodeRow : Type 0 where
  pub code_hash : Text
  pub client_id : Text
  pub redirect_uri : Text
  pub redirect_uri_provided_explicitly : Bool
  pub code_challenge : Text
  pub scopes : Text
  pub principal : Text
  pub resource : Option Text
  pub expires_at : Stamp
  pub created_at : Stamp
  pub consumed_at : Option Stamp

pub record RefreshRow : Type 0 where
  pub token_hash : Text
  pub family_id : Text
  pub prev_token_hash : Option Text
  pub client_id : Text
  pub principal : Text
  pub scopes : Text
  pub resource : Option Text
  pub expires_at : Option Stamp
  pub created_at : Stamp
  pub rotated_at : Option Stamp
  pub revoked_at : Option Stamp
  pub superseded_by_hash : Option Text

pub record AccessRow : Type 0 where
  pub token_hash : Text
  pub family_id : Text
  pub client_id : Text
  pub principal : Text
  pub scopes : Text
  pub resource : Option Text
  pub expires_at : Stamp
  pub created_at : Stamp
  pub revoked_at : Option Stamp

pub record ApprovalRow : Type 0 where
  pub principal : Text
  pub client_id : Text
  pub scopes : Text
  pub approved_at : Stamp

pub record PendingRow : Type 0 where
  pub nonce_hash : Text
  pub client_id : Text
  pub redirect_uri : Text
  pub redirect_uri_provided_explicitly : Bool
  pub code_challenge : Text
  pub scopes : Text
  pub resource : Option Text
  pub state : Option Text
  pub created_at : Stamp
  pub expires_at : Stamp
  pub consumed_at : Option Stamp

pub record OauthStore : Type 0 where
  pub clients : List ClientRow
  pub auth_codes : List AuthCodeRow
  pub refresh_tokens : List RefreshRow
  pub access_tokens : List AccessRow
  pub client_approvals : List ApprovalRow
  pub pending_requests : List PendingRow

abbrev pub empty_store : OauthStore
empty_store = record {
  clients = [];
  auth_codes = [];
  refresh_tokens = [];
  access_tokens = [];
  client_approvals = [];
  pending_requests = [];
}

-- The SDK's `OAuthClientInformationFull`: the fields that the store reads, and the rest as a text.
pub record ClientInfo : Type 0 where
  pub client_id : Text
  pub client_secret : Option Text
  pub client_secret_expires_at : Option ℕ
  pub metadata : Text

-- `hash` is the HMAC under the store's pepper; `encrypt` and `decrypt` are Fernet under its key
-- (the number is the random part); `dump` and `validate` are the model's JSON codec.
pub record Primitives : Type 0 where
  pub hash : Text → Text
  pub encrypt : ℕ → Text → Text
  pub decrypt : Text → Option Text
  pub dump : ClientInfo → Text
  pub validate : Text → ClientInfo

-- What Fernet and the codec document.
pub record RoundTrips (k : Primitives) : Type 0 where
  pub decrypt-encrypt :
      (nonce : ℕ) (plaintext : Text) → k.decrypt (k.encrypt nonce plaintext) ≡ some plaintext
  pub validate-dump : (info : ClientInfo) → k.validate (k.dump info) ≡ info

-- `generate_token()` and the clock reading beside it.
pub record Draw : Type 0 where
  pub token : Text
  pub now : ℕ

-- Seconds in the clock's microseconds.
abbrev pub seconds : ℕ → ℕ
seconds n = n * 1000000

abbrev pub access_ttl : ℕ
access_ttl = seconds 900

abbrev pub refresh_ttl : ℕ
refresh_ttl = seconds 2592000

abbrev pub auth_code_ttl : ℕ
auth_code_ttl = seconds 300

abbrev pub pending_request_ttl : ℕ
pending_request_ttl = seconds 600

abbrev pub refresh_grace : ℕ
refresh_grace = seconds 30
