-- ===== src/Groth16/Tag.antt =====
-- groth16-verify/src/tag.rs: the first byte of every instruction.
use groth16_verifier_program.Common.{
  ℕ, ◌≡◌, refl, Option, none, some, arith, ◌==◌, if◌then◌else◌, ◌↔◌,
}

pub data Tag : Type 0 where
  initialize_staging write publish verify close_staging : Tag

-- `tag as u8`.
unfoldable pub as_u8 : Tag → ℕ
as_u8 initialize_staging = 0
as_u8 write = 1
as_u8 publish = 2
as_u8 verify = 3
as_u8 close_staging = 4

unfoldable pub from_u8 : ℕ → Option Tag
from_u8 b =
    if b == 0
    then some initialize_staging
    else if b == 1
    then some write
    else if b == 2
    then some publish
    else if b == 3
    then some verify
    else if b == 4
    then some close_staging
    else none

-- Each tag is read back from its byte.
pub from_u8-as_u8 : (t : Tag) → from_u8 (as_u8 t) ≡ some t
unfolding from_u8 as_u8
from_u8-as_u8 initialize_staging = refl
from_u8-as_u8 write = refl
from_u8-as_u8 publish = refl
from_u8-as_u8 verify = refl
from_u8-as_u8 close_staging = refl

-- A byte is read as a tag only if it is that tag's byte.
pub from_u8-eq-some : (b : ℕ) {t : Tag} → from_u8 b ≡ some t → b ≡ as_u8 t
unfolding from_u8 as_u8
from_u8-eq-some b {t = initialize_staging} h = ground arith
from_u8-eq-some b {t = write} h = ground arith
from_u8-eq-some b {t = publish} h = ground arith
from_u8-eq-some b {t = verify} h = ground arith
from_u8-eq-some b {t = close_staging} h = ground arith

-- A byte is read as a tag exactly if it is that tag's byte; in particular every tag is read back from
-- its byte.
pub from_u8_iff : (b : ℕ) (t : Tag) → (from_u8 b ≡ some t) ↔ (b ≡ as_u8 t)
from_u8_iff b t = (λ h. from_u8-eq-some b {t = t} h, λ h. rw h (from_u8-as_u8 t))
