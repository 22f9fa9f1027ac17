-- ===== src/Storage/Filters/Requirements.antt =====
-- `_apply_req_filters` ends, and what it leaves in the database.
use reqstool_client.Prelude.{string_eq}
use reqstool_client.Storage.Database.{Database}
use reqstool_client.Models.UrnId.{urn_id_eq, UrnId}
use reqstool_client.Prelude.Result.{Result}
