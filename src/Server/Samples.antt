-- ===== src/Server/Samples.antt =====
-- A request for a French periodical, and who sends what.
use cidemis.Base.{ℕ, String, Option, none, some, List, [], ◌∷◌, Text, codes}
use cidemis.Server.{User, Notice, Demande}
use cidemis.Server.Workflow.{DemandeDto}

abbrev pub french : List Text
french = codes "FR" ∷ []

abbrev pub centre : Text → Option String
centre t = some "FRA"

abbrev pub person : ℕ → ℕ → User
person num role = record {
  user_num = num;
  user_key = "user";
  role = role;
  iln = "1";
  id_profil = none;
}

abbrev pub paper : Notice
paper = record {
  ppn = "123456789";
  pays = codes "FR";
  idprofil = 3;
  type_document = codes "As";
  centre_issn = none;
  statut_notice = "";
  titre = "Revue";
}

abbrev pub form : Option ℕ → String → Text → DemandeDto
form id action pays = record {
  id_demande = id;
  titre = "";
  action = action;
  types_demandes = 22;
  code_pays = pays;
  id_profil = none;
  notice = some paper;
}

abbrev pub sent_to : ℕ → List ℕ → Demande
sent_to etat journal = record {
  id_demande = 1;
  type_demande = 22;
  etat = etat;
  user_num = 7;
  iln = "1";
  id_profil = some 3;
  notice = some paper;
  centre_issn = some "FRA";
  titre = some "Revue";
  journal = journal;
}
