-- ===== src/Media/VideoFormat/Colour.antt =====
-- The colour tags of include/eavp/media/video_format.hpp, with `==` by the value of the enumerator.
use eavp.Base.{ℕ}

-- `enum class ColorRange`.
pub data ColorRange : Type 0 where
  unknown limited full : ColorRange

-- `enum class ColorPrimaries`.
pub data ColorPrimaries : Type 0 where
  unknown bt601 bt709 bt2020 : ColorPrimaries

-- `enum class TransferCharacteristic`.
pub data TransferCharacteristic : Type 0 where
  unknown bt709 srgb pq hlg : TransferCharacteristic

-- `enum class MatrixCoefficients`.
pub data MatrixCoefficients : Type 0 where
  unknown bt601 bt709 bt2020_ncl : MatrixCoefficients

abbrev pub range_value : ColorRange → ℕ
range_value ColorRange.unknown = 0
range_value ColorRange.limited = 1
range_value ColorRange.full = 2

abbrev pub primaries_value : ColorPrimaries → ℕ
primaries_value ColorPrimaries.unknown = 0
primaries_value ColorPrimaries.bt601 = 1
primaries_value ColorPrimaries.bt709 = 2
primaries_value ColorPrimaries.bt2020 = 3

abbrev pub transfer_value : TransferCharacteristic → ℕ
transfer_value TransferCharacteristic.unknown = 0
transfer_value TransferCharacteristic.bt709 = 1
transfer_value TransferCharacteristic.srgb = 2
transfer_value TransferCharacteristic.pq = 3
transfer_value TransferCharacteristic.hlg = 4

abbrev pub matrix_value : MatrixCoefficients → ℕ
matrix_value MatrixCoefficients.unknown = 0
matrix_value MatrixCoefficients.bt601 = 1
matrix_value MatrixCoefficients.bt709 = 2
matrix_value MatrixCoefficients.bt2020_ncl = 3

-- The four tags of a format.
pub record ColorTags : Type 0 where
  pub color_range : ColorRange
  pub color_primaries : ColorPrimaries
  pub transfer : TransferCharacteristic
  pub matrix : MatrixCoefficients
