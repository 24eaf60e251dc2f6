-- ===== src/Agent/Messages.antt =====
-- The messages of base/proto/lars.proto that the agent reads and writes, as values. An `int32` is
-- its 32-bit pattern. A field that is not set has its default, 0 or the empty list.
use lars.Base.{ℕ, List, Bool}

abbrev pub ret_succ : ℕ
ret_succ = 0

abbrev pub ret_overload : ℕ
ret_overload = 1

abbrev pub ret_system_error : ℕ
ret_system_error = 2

abbrev pub ret_noexist : ℕ
ret_noexist = 3

-- `HostInfo` of the protocol: where a host is reached.
pub record HostAddr : Type 0 where
  pub ip : ℕ
  pub port : ℕ

pub record GetRouteRequest : Type 0 where
  pub modid : ℕ
  pub cmdid : ℕ

pub record GetRouteResponse : Type 0 where
  pub modid : ℕ
  pub cmdid : ℕ
  pub host : List HostAddr

pub record HostCallResult : Type 0 where
  pub ip : ℕ
  pub port : ℕ
  pub succ : ℕ
  pub err : ℕ
  pub overload : Bool

pub record ReportStatusRequest : Type 0 where
  pub modid : ℕ
  pub cmdid : ℕ
  pub caller : ℕ
  pub results : List HostCallResult
  pub ts : ℕ

pub record GetHostRequest : Type 0 where
  pub seq : ℕ
  pub modid : ℕ
  pub cmdid : ℕ

pub record GetHostResponse : Type 0 where
  pub seq : ℕ
  pub modid : ℕ
  pub cmdid : ℕ
  pub retcode : ℕ
  pub host : HostAddr

pub record ReportRequest : Type 0 where
  pub modid : ℕ
  pub cmdid : ℕ
  pub host : HostAddr
  pub retcode : ℕ
