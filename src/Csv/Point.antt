-- ===== src/Csv/Point.antt =====
-- The data points and streams that the CSV generator reads: `connector_data_point_t` and
-- `connector_data_stream_t` of CCAPI, as far as dp_csv_generator.c reads them. A member of a union
-- is a field of its own here, since only the one that its tag names is read.
use cc_dey.Base.{Option, List, Bytes, ℤ}
use cc_dey.Csv.Number.{Floats}

pub data PointType : Type 0 where
  integer long float double string binary json geojson : PointType

module _ (floats : Floats) where
  open floats use {F}

  pub record Native : Type 0 where
    pub int_value : ℤ
    pub long_value : ℤ
    pub float_value : F
    pub double_value : F
    pub string_value : Option Bytes

  pub data PointData : Type 0 where
    text : Option Bytes → PointData
    native : Native → PointData

  -- Latitude, longitude and elevation.
  pub data Location : Type 0 where
    ignore : Location
    text : Option Bytes → Option Bytes → Option Bytes → Location
    native : F → F → F → Location

  pub data PointTime : Type 0 where
    cloud : PointTime
    local_epoch_fractional : ℤ → ℤ → PointTime
    local_epoch_whole : ℤ → PointTime
    local_iso8601 : Option Bytes → PointTime

  pub data Quality : Type 0 where
    ignore : Quality
    native : ℤ → Quality

  pub record Point : Type 0 where
    pub element : PointData
    pub time : PointTime
    pub quality : Quality
    pub description : Option Bytes
    pub location : Location

  -- The points are the list that `point` and the `next` pointers make.
  pub record Stream : Type 0 where
    pub stream_id : Option Bytes
    pub unit : Option Bytes
    pub forward_to : Option Bytes
    pub type : PointType
    pub points : List Point
