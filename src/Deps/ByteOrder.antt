-- ===== src/Deps/ByteOrder.antt =====
-- `LittleEndian::write_u24` of the crate byteorder, which packet_writer.rs calls.
use opensrv.Common.{ℕ, ◌/◌, ◌%◌, ◌^◌, ◌<◌, ◌≡◌, [], ◌∷◌, Bytes}

pub record ByteOrder : Type 0 where
  -- the three bytes that the call stores
  pub write_u24 : ℕ → Bytes
  pub write_u24_lem :
      (n : ℕ) → n < 2 ^ 24 → write_u24 n ≡ n % 2 ^ 8 ∷ n / 2 ^ 8 % 2 ^ 8 ∷ n / 2 ^ 16 % 2 ^ 8 ∷ []
