-- ===== src/Types.antt =====
-- frontend/src/lib/types.ts: the records that the API returns and the client keeps.
-- `V` stands for the values of `unknown` type that a component's config holds.
use vortex_flow.Common.{ℕ, String, Bool, Option, List, Dict}

pub data Role : Type 0 where
  admin editor viewer : Role

pub record User : Type 0 where
  pub id : String
  pub email : String
  pub name : String
  pub role : Role
  pub auth_method : String
  pub is_active : Bool
  pub created_at : String
  pub must_change_password : Option Bool

pub record Fleet : Type 0 where
  pub id : String
  pub name : String
  pub description : Option String
  pub is_default : Bool
  pub generation : ℕ
  pub desired_vector_version : Option String
  pub created_by : Option String
  pub created_at : String
  pub updated_at : String

pub data StageMode : Type 0 where
  inline library : StageMode

pub record TransformStage : Type 0 where
  pub id : String
  pub fleet_id : String
  pub name : String
  pub mode : StageMode
  pub source_vrl : Option String
  pub transform_id : Option String
  pub inputs : List String
  pub created_at : String
  pub updated_at : String

pub record RouteBranch : Type 0 where
  pub name : String
  pub condition : String
  pub sink_ids : List String

pub record Route : Type 0 where
  pub id : String
  pub fleet_id : String
  pub name : String
  pub description : Option String
  pub branches : List RouteBranch
  pub source_ids : List String
  pub passthrough_sink_ids : List String
  pub created_by : Option String
  pub created_at : String
  pub updated_at : String

pub data ComponentKind : Type 0 where
  source sink : ComponentKind

pub record Component (V : Type 0) : Type 0 where
  pub id : String
  pub fleet_id : String
  pub kind : ComponentKind
  pub name : String
  pub component_type : String
  pub config : Dict V
  pub inputs : List String
  pub cert_refs : Dict String
  pub created_by : Option String
  pub created_at : String
  pub updated_at : String
