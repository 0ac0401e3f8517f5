-- ===== src/Diacritics/Upper.antt =====
-- The upper-case rows of `defaultDiacriticsRemovalap` of scripts.js, letter by letter as code units.
use cidemis.Base.{List, [], ◌∷◌}
use cidemis.Diacritics.Row.{Entry}

abbrev pub upper_rows : List Entry
upper_rows =
    record {
      base = b'A' ∷ [];
      letters =
          0x0041 ∷ 0x24B6 ∷ 0xFF21 ∷ 0x00C0 ∷ 0x00C1 ∷ 0x00C2 ∷ 0x1EA6 ∷ 0x1EA4 ∷ 0x1EAA ∷ 0x1EA8
          ∷ 0x00C3 ∷ 0x0100 ∷ 0x0102 ∷ 0x1EB0 ∷ 0x1EAE ∷ 0x1EB4 ∷ 0x1EB2 ∷ 0x0226 ∷ 0x01E0 ∷ 0x00C4
          ∷ 0x01DE ∷ 0x1EA2 ∷ 0x00C5 ∷ 0x01FA ∷ 0x01CD ∷ 0x0200 ∷ 0x0202 ∷ 0x1EA0 ∷ 0x1EAC ∷ 0x1EB6
          ∷ 0x1E00 ∷ 0x0104 ∷ 0x023A ∷ 0x2C6F ∷ [];
    }
    ∷ record { base = b'A' ∷ b'A' ∷ []; letters = 0xA732 ∷ [] }
    ∷ record { base = b'A' ∷ b'E' ∷ []; letters = 0x00C6 ∷ 0x01FC ∷ 0x01E2 ∷ [] }
    ∷ record { base = b'A' ∷ b'O' ∷ []; letters = 0xA734 ∷ [] }
    ∷ record { base = b'A' ∷ b'U' ∷ []; letters = 0xA736 ∷ [] }
    ∷ record { base = b'A' ∷ b'V' ∷ []; letters = 0xA738 ∷ 0xA73A ∷ [] }
    ∷ record { base = b'A' ∷ b'Y' ∷ []; letters = 0xA73C ∷ [] }
    ∷ record {
      base = b'B' ∷ [];
      letters = 0x0042 ∷ 0x24B7 ∷ 0xFF22 ∷ 0x1E02 ∷ 0x1E04 ∷ 0x1E06 ∷ 0x0243 ∷ 0x0182 ∷ 0x0181 ∷ [];
    }
    ∷ record {
      base = b'C' ∷ [];
      letters =
          0x0043 ∷ 0x24B8 ∷ 0xFF23 ∷ 0x0106 ∷ 0x0108 ∷ 0x010A ∷ 0x010C ∷ 0x00C7 ∷ 0x1E08 ∷ 0x0187
          ∷ 0x023B ∷ 0xA73E ∷ [];
    }
    ∷ record {
      base = b'D' ∷ [];
      letters =
          0x0044 ∷ 0x24B9 ∷ 0xFF24 ∷ 0x1E0A ∷ 0x010E ∷ 0x1E0C ∷ 0x1E10 ∷ 0x1E12 ∷ 0x1E0E ∷ 0x0110
          ∷ 0x018B ∷ 0x018A ∷ 0x0189 ∷ 0xA779 ∷ [];
    }
    ∷ record { base = b'D' ∷ b'Z' ∷ []; letters = 0x01F1 ∷ 0x01C4 ∷ [] }
    ∷ record { base = b'D' ∷ b'z' ∷ []; letters = 0x01F2 ∷ 0x01C5 ∷ [] }
    ∷ record {
      base = b'E' ∷ [];
      letters =
          0x0045 ∷ 0x24BA ∷ 0xFF25 ∷ 0x00C8 ∷ 0x00C9 ∷ 0x00CA ∷ 0x1EC0 ∷ 0x1EBE ∷ 0x1EC4 ∷ 0x1EC2
          ∷ 0x1EBC ∷ 0x0112 ∷ 0x1E14 ∷ 0x1E16 ∷ 0x0114 ∷ 0x0116 ∷ 0x00CB ∷ 0x1EBA ∷ 0x011A ∷ 0x0204
          ∷ 0x0206 ∷ 0x1EB8 ∷ 0x1EC6 ∷ 0x0228 ∷ 0x1E1C ∷ 0x0118 ∷ 0x1E18 ∷ 0x1E1A ∷ 0x0190 ∷ 0x018E
          ∷ [];
    }
    ∷ record {
      base = b'F' ∷ [];
      letters = 0x0046 ∷ 0x24BB ∷ 0xFF26 ∷ 0x1E1E ∷ 0x0191 ∷ 0xA77B ∷ [];
    }
    ∷ record {
      base = b'G' ∷ [];
      letters =
          0x0047 ∷ 0x24BC ∷ 0xFF27 ∷ 0x01F4 ∷ 0x011C ∷ 0x1E20 ∷ 0x011E ∷ 0x0120 ∷ 0x01E6 ∷ 0x0122
          ∷ 0x01E4 ∷ 0x0193 ∷ 0xA7A0 ∷ 0xA77D ∷ 0xA77E ∷ [];
    }
    ∷ record {
      base = b'H' ∷ [];
      letters =
          0x0048 ∷ 0x24BD ∷ 0xFF28 ∷ 0x0124 ∷ 0x1E22 ∷ 0x1E26 ∷ 0x021E ∷ 0x1E24 ∷ 0x1E28 ∷ 0x1E2A
          ∷ 0x0126 ∷ 0x2C67 ∷ 0x2C75 ∷ 0xA78D ∷ [];
    }
    ∷ record {
      base = b'I' ∷ [];
      letters =
          0x0049 ∷ 0x24BE ∷ 0xFF29 ∷ 0x00CC ∷ 0x00CD ∷ 0x00CE ∷ 0x0128 ∷ 0x012A ∷ 0x012C ∷ 0x0130
          ∷ 0x00CF ∷ 0x1E2E ∷ 0x1EC8 ∷ 0x01CF ∷ 0x0208 ∷ 0x020A ∷ 0x1ECA ∷ 0x012E ∷ 0x1E2C ∷ 0x0197
          ∷ [];
    }
    ∷ record { base = b'J' ∷ []; letters = 0x004A ∷ 0x24BF ∷ 0xFF2A ∷ 0x0134 ∷ 0x0248 ∷ [] }
    ∷ record {
      base = b'K' ∷ [];
      letters =
          0x004B ∷ 0x24C0 ∷ 0xFF2B ∷ 0x1E30 ∷ 0x01E8 ∷ 0x1E32 ∷ 0x0136 ∷ 0x1E34 ∷ 0x0198 ∷ 0x2C69
          ∷ 0xA740 ∷ 0xA742 ∷ 0xA744 ∷ 0xA7A2 ∷ [];
    }
    ∷ record {
      base = b'L' ∷ [];
      letters =
          0x004C ∷ 0x24C1 ∷ 0xFF2C ∷ 0x013F ∷ 0x0139 ∷ 0x013D ∷ 0x1E36 ∷ 0x1E38 ∷ 0x013B ∷ 0x1E3C
          ∷ 0x1E3A ∷ 0x0141 ∷ 0x023D ∷ 0x2C62 ∷ 0x2C60 ∷ 0xA748 ∷ 0xA746 ∷ 0xA780 ∷ [];
    }
    ∷ record { base = b'L' ∷ b'J' ∷ []; letters = 0x01C7 ∷ [] }
    ∷ record { base = b'L' ∷ b'j' ∷ []; letters = 0x01C8 ∷ [] }
    ∷ record {
      base = b'M' ∷ [];
      letters = 0x004D ∷ 0x24C2 ∷ 0xFF2D ∷ 0x1E3E ∷ 0x1E40 ∷ 0x1E42 ∷ 0x2C6E ∷ 0x019C ∷ [];
    }
    ∷ record {
      base = b'N' ∷ [];
      letters =
          0x004E ∷ 0x24C3 ∷ 0xFF2E ∷ 0x01F8 ∷ 0x0143 ∷ 0x00D1 ∷ 0x1E44 ∷ 0x0147 ∷ 0x1E46 ∷ 0x0145
          ∷ 0x1E4A ∷ 0x1E48 ∷ 0x0220 ∷ 0x019D ∷ 0xA790 ∷ 0xA7A4 ∷ [];
    }
    ∷ record { base = b'N' ∷ b'J' ∷ []; letters = 0x01CA ∷ [] }
    ∷ record { base = b'N' ∷ b'j' ∷ []; letters = 0x01CB ∷ [] }
    ∷ record {
      base = b'O' ∷ [];
      letters =
          0x004F ∷ 0x24C4 ∷ 0xFF2F ∷ 0x00D2 ∷ 0x00D3 ∷ 0x00D4 ∷ 0x1ED2 ∷ 0x1ED0 ∷ 0x1ED6 ∷ 0x1ED4
          ∷ 0x00D5 ∷ 0x1E4C ∷ 0x022C ∷ 0x1E4E ∷ 0x014C ∷ 0x1E50 ∷ 0x1E52 ∷ 0x014E ∷ 0x022E ∷ 0x0230
          ∷ 0x00D6 ∷ 0x022A ∷ 0x1ECE ∷ 0x0150 ∷ 0x01D1 ∷ 0x020C ∷ 0x020E ∷ 0x01A0 ∷ 0x1EDC ∷ 0x1EDA
          ∷ 0x1EE0 ∷ 0x1EDE ∷ 0x1EE2 ∷ 0x1ECC ∷ 0x1ED8 ∷ 0x01EA ∷ 0x01EC ∷ 0x00D8 ∷ 0x01FE ∷ 0x0186
          ∷ 0x019F ∷ 0xA74A ∷ 0xA74C ∷ [];
    }
    ∷ record { base = b'O' ∷ b'I' ∷ []; letters = 0x01A2 ∷ [] }
    ∷ record { base = b'O' ∷ b'O' ∷ []; letters = 0xA74E ∷ [] }
    ∷ record { base = b'O' ∷ b'U' ∷ []; letters = 0x0222 ∷ [] }
    ∷ record { base = b'O' ∷ b'E' ∷ []; letters = 0x008C ∷ 0x0152 ∷ [] }
    ∷ record { base = b'o' ∷ b'e' ∷ []; letters = 0x009C ∷ 0x0153 ∷ [] }
    ∷ record {
      base = b'P' ∷ [];
      letters =
          0x0050 ∷ 0x24C5 ∷ 0xFF30 ∷ 0x1E54 ∷ 0x1E56 ∷ 0x01A4 ∷ 0x2C63 ∷ 0xA750 ∷ 0xA752 ∷ 0xA754
          ∷ [];
    }
    ∷ record {
      base = b'Q' ∷ [];
      letters = 0x0051 ∷ 0x24C6 ∷ 0xFF31 ∷ 0xA756 ∷ 0xA758 ∷ 0x024A ∷ [];
    }
    ∷ record {
      base = b'R' ∷ [];
      letters =
          0x0052 ∷ 0x24C7 ∷ 0xFF32 ∷ 0x0154 ∷ 0x1E58 ∷ 0x0158 ∷ 0x0210 ∷ 0x0212 ∷ 0x1E5A ∷ 0x1E5C
          ∷ 0x0156 ∷ 0x1E5E ∷ 0x024C ∷ 0x2C64 ∷ 0xA75A ∷ 0xA7A6 ∷ 0xA782 ∷ [];
    }
    ∷ record {
      base = b'S' ∷ [];
      letters =
          0x0053 ∷ 0x24C8 ∷ 0xFF33 ∷ 0x1E9E ∷ 0x015A ∷ 0x1E64 ∷ 0x015C ∷ 0x1E60 ∷ 0x0160 ∷ 0x1E66
          ∷ 0x1E62 ∷ 0x1E68 ∷ 0x0218 ∷ 0x015E ∷ 0x2C7E ∷ 0xA7A8 ∷ 0xA784 ∷ [];
    }
    ∷ record {
      base = b'T' ∷ [];
      letters =
          0x0054 ∷ 0x24C9 ∷ 0xFF34 ∷ 0x1E6A ∷ 0x0164 ∷ 0x1E6C ∷ 0x021A ∷ 0x0162 ∷ 0x1E70 ∷ 0x1E6E
          ∷ 0x0166 ∷ 0x01AC ∷ 0x01AE ∷ 0x023E ∷ 0xA786 ∷ [];
    }
    ∷ record { base = b'T' ∷ b'Z' ∷ []; letters = 0xA728 ∷ [] }
    ∷ record {
      base = b'U' ∷ [];
      letters =
          0x0055 ∷ 0x24CA ∷ 0xFF35 ∷ 0x00D9 ∷ 0x00DA ∷ 0x00DB ∷ 0x0168 ∷ 0x1E78 ∷ 0x016A ∷ 0x1E7A
          ∷ 0x016C ∷ 0x00DC ∷ 0x01DB ∷ 0x01D7 ∷ 0x01D5 ∷ 0x01D9 ∷ 0x1EE6 ∷ 0x016E ∷ 0x0170 ∷ 0x01D3
          ∷ 0x0214 ∷ 0x0216 ∷ 0x01AF ∷ 0x1EEA ∷ 0x1EE8 ∷ 0x1EEE ∷ 0x1EEC ∷ 0x1EF0 ∷ 0x1EE4 ∷ 0x1E72
          ∷ 0x0172 ∷ 0x1E76 ∷ 0x1E74 ∷ 0x0244 ∷ [];
    }
    ∷ record {
      base = b'V' ∷ [];
      letters = 0x0056 ∷ 0x24CB ∷ 0xFF36 ∷ 0x1E7C ∷ 0x1E7E ∷ 0x01B2 ∷ 0xA75E ∷ 0x0245 ∷ [];
    }
    ∷ record { base = b'V' ∷ b'Y' ∷ []; letters = 0xA760 ∷ [] }
    ∷ record {
      base = b'W' ∷ [];
      letters =
          0x0057 ∷ 0x24CC ∷ 0xFF37 ∷ 0x1E80 ∷ 0x1E82 ∷ 0x0174 ∷ 0x1E86 ∷ 0x1E84 ∷ 0x1E88 ∷ 0x2C72
          ∷ [];
    }
    ∷ record { base = b'X' ∷ []; letters = 0x0058 ∷ 0x24CD ∷ 0xFF38 ∷ 0x1E8A ∷ 0x1E8C ∷ [] }
    ∷ record {
      base = b'Y' ∷ [];
      letters =
          0x0059 ∷ 0x24CE ∷ 0xFF39 ∷ 0x1EF2 ∷ 0x00DD ∷ 0x0176 ∷ 0x1EF8 ∷ 0x0232 ∷ 0x1E8E ∷ 0x0178
          ∷ 0x1EF6 ∷ 0x1EF4 ∷ 0x01B3 ∷ 0x024E ∷ 0x1EFE ∷ [];
    }
    ∷ record {
      base = b'Z' ∷ [];
      letters =
          0x005A ∷ 0x24CF ∷ 0xFF3A ∷ 0x0179 ∷ 0x1E90 ∷ 0x017B ∷ 0x017D ∷ 0x1E92 ∷ 0x1E94 ∷ 0x01B5
          ∷ 0x0224 ∷ 0x2C7F ∷ 0x2C6B ∷ 0xA762 ∷ [];
    }
    ∷ []
