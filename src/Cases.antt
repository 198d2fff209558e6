-- ===== src/Cases.antt =====
-- include/gentest/detail/case_api.h: the registered test case. The two function pointers `fn` and
-- `async_fn` are left out: the parts modelled here do not call them.
use gentest.Base.{ℕ, Bool, List, Bytes}

pub data FixtureLifetime : Type 0 where
  no_fixture member_ephemeral member_suite member_global : FixtureLifetime

pub record Case : Type 0 where
  pub name : Bytes
  pub file : Bytes
  pub line : ℕ
  pub is_benchmark : Bool
  pub is_jitter : Bool
  pub is_baseline : Bool
  pub tags : List Bytes
  pub requirements : List Bytes
  pub skip_reason : Bytes
  pub should_skip : Bool
  pub fixture : Bytes
  pub fixture_lifetime : FixtureLifetime
  pub suite : Bytes
  pub is_async : Bool
  pub items_per_call : ℕ
  pub owner : Bytes
