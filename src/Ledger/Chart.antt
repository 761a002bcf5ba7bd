-- ===== src/Ledger/Chart.antt =====
-- internal/ledger/chart.go: the BAS classes of accounts, and the core chart.
use pare.Common.{Text, bytes, Bool, true, false, List, [], ◌∷◌, ◌==◌, if◌then◌else◌}

-- The account classes, in the order of the source's iota.
pub data AccountClass : Type 0 where
  class_unknown class_asset class_equity_liability class_income class_expense class_financial :
      AccountClass

-- The switch on the first byte of an account number.
unfoldable pub classify : Text → AccountClass
classify [] = class_unknown
classify (c ∷ _) =
    if c == b'1'
    then class_asset
    else if c == b'2'
    then class_equity_liability
    else if c == b'3'
    then class_income
    else if c == b'4'
    then class_expense
    else if c == b'5'
    then class_expense
    else if c == b'6'
    then class_expense
    else if c == b'7'
    then class_expense
    else if c == b'8'
    then class_financial
    else class_unknown

unfoldable pub is_result : AccountClass → Bool
is_result class_income = true
is_result class_expense = true
is_result class_financial = true
is_result _ = false

unfoldable pub is_balance : AccountClass → Bool
is_balance class_asset = true
is_balance class_equity_liability = true
is_balance _ = false

-- One row of the chart of accounts.
pub record Account : Type 0 where
  pub number : Text
  pub name : Text
  pub default_vat_code : Text

abbrev account : Text → Text → Text → Account
account n s v = record { number = n; name = s; default_vat_code = v }

-- CoreChart: what a new company's chart is seeded with.
abbrev pub core_chart : List Account
core_chart =
    account (bytes "1510") (bytes "Kundfordringar") []
    ∷ account (bytes "1630") (bytes "Avräkning för skatter och avgifter (skattekonto)") []
    ∷ account (bytes "1790") (bytes "Övriga förutbetalda kostnader och upplupna intäkter") []
    ∷ account (bytes "1910") (bytes "Kassa") []
    ∷ account (bytes "1930") (bytes "Företagskonto/checkkonto/affärskonto") []
    ∷ account (bytes "2081") (bytes "Aktiekapital") []
    ∷ account (bytes "2091") (bytes "Balanserad vinst eller förlust") []
    ∷ account (bytes "2099") (bytes "Årets resultat") []
    ∷ account (bytes "2440") (bytes "Leverantörsskulder") []
    ∷ account (bytes "2611") (bytes "Utgående moms på försäljning inom Sverige, 25 %") []
    ∷ account (bytes "2621") (bytes "Utgående moms på försäljning inom Sverige, 12 %") []
    ∷ account (bytes "2631") (bytes "Utgående moms på försäljning inom Sverige, 6 %") []
    ∷ account (bytes "2614") (bytes "Utgående moms, omvänd betalningsskyldighet, 25 %") []
    ∷ account (bytes "2615") (bytes "Utgående moms import av varor, 25 %") []
    ∷ account (bytes "2640") (bytes "Ingående moms") []
    ∷ account (bytes "2641") (bytes "Debiterad ingående moms") []
    ∷ account (bytes "2645") (bytes "Beräknad ingående moms på förvärv från utlandet") []
    ∷ account (bytes "2650") (bytes "Redovisningskonto för moms") []
    ∷ account (bytes "2710") (bytes "Personalskatt") []
    ∷ account (bytes "2990") (bytes "Övriga upplupna kostnader och förutbetalda intäkter") []
    ∷ account (bytes "3001") (bytes "Försäljning inom Sverige, 25 % moms") (bytes "SE25")
    ∷ account (bytes "3002") (bytes "Försäljning inom Sverige, 12 % moms") (bytes "SE12")
    ∷ account (bytes "3003") (bytes "Försäljning inom Sverige, 6 % moms") (bytes "SE06")
    ∷ account (bytes "3305") (bytes "Försäljning tjänster till land utanför EU") (bytes "EXP")
    ∷ account (bytes "3308") (bytes "Försäljning tjänster till annat EU-land") (bytes "RCEU")
    ∷ account (bytes "3740") (bytes "Öres- och kronutjämning") []
    ∷ account (bytes "3960")
        (bytes "Valutakursvinster på fordringar och skulder av rörelsekaraktär") []
    ∷ account (bytes "4531") (bytes "Inköp av tjänster från ett land utanför EU, 25 % moms") []
    ∷ account (bytes "4535") (bytes "Inköp av tjänster från annat EU-land, 25 % moms") []
    ∷ account (bytes "5010") (bytes "Lokalhyra") []
    ∷ account (bytes "5410") (bytes "Förbrukningsinventarier") []
    ∷ account (bytes "5460") (bytes "Förbrukningsmaterial") []
    ∷ account (bytes "5910") (bytes "Annonsering") []
    ∷ account (bytes "6110") (bytes "Kontorsmateriel") []
    ∷ account (bytes "6212") (bytes "Mobiltelefon") []
    ∷ account (bytes "6230") (bytes "Datakommunikation") []
    ∷ account (bytes "6310") (bytes "Företagsförsäkringar") []
    ∷ account (bytes "6530") (bytes "Redovisningstjänster") []
    ∷ account (bytes "6540") (bytes "IT-tjänster") []
    ∷ account (bytes "6550") (bytes "Konsultarvoden") []
    ∷ account (bytes "6570") (bytes "Bankkostnader") []
    ∷ account (bytes "7210") (bytes "Löner till tjänstemän") []
    ∷ account (bytes "7220") (bytes "Löner till företagsledare") []
    ∷ account (bytes "7510") (bytes "Arbetsgivaravgifter") []
    ∷ account (bytes "7690") (bytes "Övriga personalkostnader") []
    ∷ account (bytes "7960")
        (bytes "Valutakursförluster på fordringar och skulder av rörelsekaraktär") []
    ∷ account (bytes "8310") (bytes "Ränteintäkter från omsättningstillgångar") []
    ∷ account (bytes "8410") (bytes "Räntekostnader för långfristiga skulder") []
    ∷ account (bytes "8420") (bytes "Räntekostnader för kortfristiga skulder") []
    ∷ account (bytes "8910") (bytes "Skatt som belastar årets resultat") []
    ∷ account (bytes "8999") (bytes "Årets resultat") []
    ∷ []
