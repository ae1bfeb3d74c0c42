-- ===== src/Sync/Timestamp.antt =====
-- Timestamps as they travel (sync-pull-normalizer.ts `toTimestamp`, sync-payload-builder.ts
-- `toInt`). Numbers are the natural ones and NaN: epoch milliseconds have no sign and no fraction.
-- `Date.parse` and `Number` of a text are parameters.
use ylp_software.Base.{ℕ, String}

pub data Number : Type 0 where
  int : ℕ → Number
  nan : Number

-- `TimestampInput`; `null` and `undefined` are told apart where the source does.
pub data Stamp : Type 0 where
  num : Number → Stamp
  text : String → Stamp
  date : ℕ → Stamp
  null : Stamp
  undefined : Stamp

-- `a ?? b`
infixr 20 ◌<?>◌
abbrev pub ◌<?>◌ : Stamp → Stamp → Stamp
null <?> b = b
undefined <?> b = b
num n <?> b = num n
text s <?> b = text s
date n <?> b = date n

-- The conversions of the language that the source calls on texts.
pub record Runtime : Type 0 where
  pub parse_date : String → Number
  pub parse_number : String → Number

-- `SyncPullNormalizer.toTimestamp`
abbrev pub to_timestamp : Runtime → Stamp → Number
to_timestamp rt (num n) = n
to_timestamp rt (text s) = rt.parse_date s
to_timestamp rt _ = int 0

-- `Number.isFinite(n) ? Math.trunc(n) : fallback`, with the fallback 0
abbrev pub trunc_or_zero : Number → ℕ
trunc_or_zero (int n) = n
trunc_or_zero nan = 0

-- `toInt` of `SyncPayloadBuilder.toServerPayload`: a `Date` is neither a number nor a text.
abbrev pub to_int : Runtime → Stamp → ℕ
to_int rt (num n) = trunc_or_zero n
to_int rt (text s) = trunc_or_zero (rt.parse_number s)
to_int rt _ = 0
