-- ===== src/Visits/Sample.antt =====
-- Rows for the tests of visits, the tablet and the notices.
use digitalreception.Base.{true, false, [], ◌∷◌, none, some}
use digitalreception.Text.{codes}
use digitalreception.Invitations.Store.{
  waiting, not_requested, meeting, under_10_km, signature, StoredFile, Site, CountryPolicy,
}
use digitalreception.Visits.Store.{
  opened, Visit, PrivacyNotice, SiteDocument, SiteDocumentVersion, Db,
}

abbrev pub head_office : Site
head_office = record {
  id = 2;
  tenant = 1;
  name = "HQ";
  country = "ES";
  timezone = "UTC";
  active = true;
}

abbrev pub spain : CountryPolicy
spain = record {
  tenant = 1;
  country = "ES";
  locales = "es" ∷ "en" ∷ [];
  default_locale = "es";
  visit_retention_days = 30;
  document_data_enabled = false;
  document_photo_enabled = false;
  document_photo_retention_days = 7;
  asset_photos_required = false;
  asset_photo_retention_days = 30;
}

-- Ona Roig, in the building, with a notice to be mailed.
abbrev pub ona : Visit
ona = record {
  id = 7;
  tenant = 1;
  site = 2;
  status = opened;
  code = codes "ABC23";
  check_in_at = 1000;
  check_out_at = none;
  check_in_device = some 4;
  check_out_by = none;
  person = record {
    first_name = some (codes "Ona");
    last_name = some (codes "roig");
    last_name_index = none;
    company = none;
    email = some (codes "o@x.es");
    email_index = none;
    host_name = some (codes "Pau");
    host = none;
    document_type = none;
    document_number = none;
  };
  travel_distance = some under_10_km;
  purpose = meeting;
  locale = "es";
  notice = 3;
  notice_version = 1;
  accepted_at = 1000;
  notice_email = record { status = waiting; attempts = 0 };
  badge_email = record { status = not_requested; attempts = 0 };
  host_email = record { status = not_requested; attempts = 0 };
  anonymized_at = none;
}

abbrev pub her_signature : StoredFile
her_signature = record {
  id = 1;
  tenant = 1;
  visit = some 7;
  invitation = none;
  kind = signature;
  purge_after = 5000;
  purged_at = none;
}

abbrev pub notice_in_spanish : PrivacyNotice
notice_in_spanish = record { id = 3; tenant = 1; country = "ES"; locale = "es"; version = 1 }

abbrev pub rules : SiteDocument
rules = record { id = 20; tenant = 1; site = none; active = true; position = 0; created_at = 0 }

abbrev pub rules_in_spanish : SiteDocumentVersion
rules_in_spanish = record { id = 21; tenant = 1; document = 20; locale = "es"; version = 1 }

abbrev pub desk : Db
desk = record {
  base = record {
    invitations = [];
    files = her_signature ∷ [];
    sites = head_office ∷ [];
    hosts = [];
    policies = spain ∷ [];
  };
  visits = ona ∷ [];
  notices = notice_in_spanish ∷ [];
  documents = rules ∷ [];
  versions = rules_in_spanish ∷ [];
  visit_documents = [];
  employees = [];
  webhooks = [];
  webhook_deliveries = [];
  devices = [];
  push_deliveries = [];
  audit = [];
  stored = [];
}
