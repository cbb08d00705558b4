-- ===== src/Entity.antt =====
-- Entities, node infos and topic infos by what their strings hold
-- (include/zenoh_pico/rmw_zenoh_pico_entity.h, _nodeInfo.h, _topicInfo.h). Their reference counts and
-- mutexes are modelled in Object.
use rmw_zenoh_pico.Prelude.{ℕ, Bytes, Option}

pub data ZenohPicoEntityType : Type 0 where
  node : ZenohPicoEntityType
  publisher : ZenohPicoEntityType
  subscription : ZenohPicoEntityType
  service : ZenohPicoEntityType
  client : ZenohPicoEntityType

pub record ZenohPicoNodeInfo : Type 0 where
  pub domain : Bytes
  pub ns : Bytes
  pub name : Bytes
  pub enclave : Bytes

pub record ZenohPicoTopicInfo : Type 0 where
  pub name : Bytes
  pub type : Bytes
  pub hash : Bytes
  pub qos : Bytes

-- `none` for a NULL pointer to an info.
pub record ZenohPicoEntity : Type 0 where
  pub zid : Bytes
  pub id : ℕ
  pub nid : ℕ
  pub type : ZenohPicoEntityType
  pub node_info : Option ZenohPicoNodeInfo
  pub topic_info : Option ZenohPicoTopicInfo
