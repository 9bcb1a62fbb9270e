-- ===== src/Scan.antt =====
-- `sensor_msgs/LaserScan`, which nav2_wrapper/scan_filter.py and nav2_wrapper/velocity_guard.py receive,
-- without its header.
use service_navigation_rbnx.Base.{List}

pub record LaserScan (R : Type 0) : Type 0 where
  pub angle_min : R
  pub angle_max : R
  pub angle_increment : R
  pub time_increment : R
  pub scan_time : R
  pub range_min : R
  pub range_max : R
  pub ranges : List R
  pub intensities : List R
